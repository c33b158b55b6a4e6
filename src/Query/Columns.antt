-- ===== src/Query/Columns.antt =====
-- The columns of the tables of devices and sessions (source/Query.h).
pub mod Process
pub mod System
pub mod Kernel
use tkmcollector.Prelude.{String}

-- Query::DeviceColumn
pub data DeviceColumn : Type 0 where
  id hash name address port : DeviceColumn

-- Query::m_deviceColumn
abbrev pub device_column : DeviceColumn → String
device_column DeviceColumn.id = "Id"
device_column DeviceColumn.hash = "Hash"
device_column DeviceColumn.name = "Name"
device_column DeviceColumn.address = "Address"
device_column DeviceColumn.port = "Port"

-- Query::SessionColumn
pub data SessionColumn : Type 0 where
  id name hash core_count start_timestamp end_timestamp device : SessionColumn

-- Query::m_sessionColumn
abbrev pub session_column : SessionColumn → String
session_column SessionColumn.id = "Id"
session_column SessionColumn.hash = "Hash"
session_column SessionColumn.name = "Name"
session_column SessionColumn.core_count = "CoreCount"
session_column SessionColumn.start_timestamp = "StartTimestamp"
session_column SessionColumn.end_timestamp = "EndTimestamp"
session_column SessionColumn.device = "Device"
