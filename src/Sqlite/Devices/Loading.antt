-- ===== src/Sqlite/Devices/Loading.antt =====
-- Which devices doLoadDevices adds to the manager.
use tkmcollector.Prelude.{ℕ, String, true, ◌≡◌, List, arith, if◌then◌else◌}
use tkmcollector.Outcome.{ok, Returns, Returns-mono}
use tkmcollector.SafeList.{SafeList, IsLawful}
use tkmcollector.Messages.{DeviceData}
use tkmcollector.Exec.{◌>>◌, pure}
use tkmcollector.Exec.Rules.{>>=-Returns}
use tkmcollector.MonitorDevice.DataSource.{DataSource}
use tkmcollector.Query
use tkmcollector.Database.Loading.{IsReady, IsLoaded, load_each-IsLoaded}
use tkmcollector.Database.{State, load_each}
use tkmcollector.Sqlite.{Engine, run_query}
use tkmcollector.Sqlite.Rows.{device_rows}
use tkmcollector.Sqlite.Devices.{do_load_devices, sql}

module _ (e : Engine) (D : SafeList DataSource) (S : SafeList ℕ) (law : IsLawful S) where
  -- The state after a query.
  abbrev queried : String → State e.Db D.Carrier S.Carrier → State e.Db D.Carrier S.Carrier
  queried text s = record s { db = (e.exec s.db text).db }

  devices_read :
      (s : State e.Db D.Carrier S.Carrier) (list : List DeviceData)
      → (e.exec s.db (Query.get_devices sql)).okay ≡ true
      → device_rows (e.exec s.db (Query.get_devices sql)).rows ≡ ok list
      → Returns
          (λ (a, s', _). (a ≡ (true, list)) × (s' ≡ queried (Query.get_devices sql) s))
          (run_query e (Query.get_devices sql) device_rows s)
  unfolding run_query
  devices_read s list okay read = ground arith

  queried-IsLoaded :
      (s : State e.Db D.Carrier S.Carrier) (list : List DeviceData)
      → IsReady D S law s
      → Returns
          (λ (_, s', _). IsLoaded D S law list s s')
          ((load_each D S list >> pure true) (queried (Query.get_devices sql) s))
  queried-IsLoaded s list r =
      >>=-Returns (λ (_, s', _). IsLoaded D S law list s s')
        (λ (_, s', _). IsLoaded D S law list s s') (load_each D S list)
        (queried (Query.get_devices sql) s) (λ _. pure true)
        (Returns-mono (λ (_, s', _). IsLoaded D S law list (queried (Query.get_devices sql) s) s')
          (λ (_, s', _). IsLoaded D S law list s s')
          (load_each D S list (queried (Query.get_devices sql) s))
          (λ _ f. record { ready = f.ready; kept = f.kept; known = f.known })
          (load_each-IsLoaded D S law list (queried (Query.get_devices sql) s)
            (record { settled = r.settled; older = r.older })))
        λ _ s' es f. f

  -- LoadDevices, when its query succeeds with rows that can be read, in a manager without a pending
  -- change and with a new next address, returns. Each hash that found a device finds the same one, and
  -- besides these exactly the hashes of the rows now find a device; the manager is ready for the next
  -- LoadDevices.
  pub do_load_devices-IsLoaded :
      (s : State e.Db D.Carrier S.Carrier) (list : List DeviceData)
      → (e.exec s.db (Query.get_devices sql)).okay ≡ true
      → device_rows (e.exec s.db (Query.get_devices sql)).rows ≡ ok list
      → IsReady D S law s
      → Returns (λ (_, s', _). IsLoaded D S law list s s') (do_load_devices e D S s)
  unfolding do_load_devices
  do_load_devices-IsLoaded s list okay read r =
      >>=-Returns (λ (a, s', _). (a ≡ (true, list)) × (s' ≡ queried (Query.get_devices sql) s))
        (λ (_, s', _). IsLoaded D S law list s s') (run_query e (Query.get_devices sql) device_rows)
        s (λ (o, l). (if o then load_each D S l else pure tt) >> pure true)
        (devices_read s list okay read)
        λ a s' es p.
          rw (p.0, p.1)
            (Returns-mono (λ (_, s', _). IsLoaded D S law list s s')
              (λ (_, s', _). IsLoaded D S law list s s')
              ((load_each D S list >> pure true) (queried (Query.get_devices sql) s)) (λ _ f. f)
              (queried-IsLoaded s list r))
