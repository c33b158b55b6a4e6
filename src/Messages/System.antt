-- ===== src/Messages/System.antt =====
-- Messages of the system's data. The messages belong to libtaskmonitor: the records have
-- the fields that the source reads, each as the text that a stream writes for it.
use tkmcollector.Prelude.{String, List}

-- a part of msg::monitor::SysProcStat
pub record CpuStat : Type 0 where
  pub name : String
  pub all : String
  pub usr : String
  pub sys : String
  pub iow : String

-- msg::monitor::SysProcStat
pub record SysProcStat : Type 0 where
  pub cpu : CpuStat
  pub core : List CpuStat

-- msg::monitor::SysProcMemInfo
pub record SysProcMemInfo : Type 0 where
  pub mem_total : String
  pub mem_free : String
  pub mem_available : String
  pub mem_cached : String
  pub mem_percent : String
  pub active : String
  pub inactive : String
  pub slab : String
  pub kreclaimable : String
  pub sreclaimable : String
  pub sunreclaim : String
  pub kernel_stack : String
  pub swap_total : String
  pub swap_free : String
  pub swap_cached : String
  pub swap_percent : String
  pub cma_total : String
  pub cma_free : String

-- an entry of msg::monitor::SysProcDiskStats
pub record DiskEntry : Type 0 where
  pub node_major : String
  pub node_minor : String
  pub name : String
  pub reads_completed : String
  pub reads_merged : String
  pub reads_spent_ms : String
  pub writes_completed : String
  pub writes_merged : String
  pub writes_spent_ms : String
  pub io_in_progress : String
  pub io_spent_ms : String
  pub io_weighted_ms : String

-- msg::monitor::SysProcDiskStats
pub record SysProcDiskStats : Type 0 where
  pub disk : List DiskEntry

-- a part of msg::monitor::SysProcPressure
pub record PressureData : Type 0 where
  pub avg10 : String
  pub avg60 : String
  pub avg300 : String
  pub total : String

-- msg::monitor::SysProcPressure
pub record SysProcPressure : Type 0 where
  pub cpu_some : PressureData
  pub cpu_full : PressureData
  pub mem_some : PressureData
  pub mem_full : PressureData
  pub io_some : PressureData
  pub io_full : PressureData
