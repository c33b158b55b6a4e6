-- ===== src/Messages/Kernel.antt =====
-- Messages of the kernel's data. The messages belong to libtaskmonitor: the records have
-- the fields that the source reads, each as the text that a stream writes for it.
use tkmcollector.Prelude.{String, List}

-- an entry of msg::monitor::SysProcBuddyInfo
pub record BuddyInfo : Type 0 where
  pub name : String
  pub zone : String
  pub data' : String

-- msg::monitor::SysProcBuddyInfo
pub record SysProcBuddyInfo : Type 0 where
  pub node : List BuddyInfo

-- an entry of msg::monitor::SysProcWireless
pub record WirelessInterface : Type 0 where
  pub name : String
  pub status : String
  pub quality_link : String
  pub quality_level : String
  pub quality_noise : String
  pub discarded_nwid : String
  pub discarded_crypt : String
  pub discarded_frag : String
  pub discarded_retry : String
  pub discarded_misc : String
  pub missed_beacon : String

-- msg::monitor::SysProcWireless
pub record SysProcWireless : Type 0 where
  pub ifw : List WirelessInterface

-- msg::monitor::SysProcVmStat
pub record SysProcVmStat : Type 0 where
  pub pgpgin : String
  pub pgpgout : String
  pub pswpin : String
  pub pswpout : String
  pub pgmajfault : String
  pub pgreuse : String
  pub pgsteal_kswapd : String
  pub pgsteal_direct : String
  pub pgsteal_khugepaged : String
  pub pgsteal_anon : String
  pub pgsteal_file : String
  pub pgscan_kswapd : String
  pub pgscan_direct : String
  pub pgscan_khugepaged : String
  pub pgscan_direct_throttle : String
  pub pgscan_anon : String
  pub pgscan_file : String
  pub oom_kill : String
  pub compact_stall : String
  pub compact_fail : String
  pub compact_success : String
  pub thp_fault_alloc : String
  pub thp_collapse_alloc : String
  pub thp_collapse_alloc_failed : String
  pub thp_file_alloc : String
  pub thp_file_mapped : String
  pub thp_split_page : String
  pub thp_split_page_failed : String
  pub thp_zero_page_alloc : String
  pub thp_zero_page_alloc_failed : String
  pub thp_swpout : String
  pub thp_swpout_fallback : String
