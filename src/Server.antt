-- ===== src/Server.antt =====
-- btstack-gatt/src/lib.rs: the builder of a server. `start` is `Runtime::start_with_advertising` on its
-- fields; here that is the part before the thread.
pub mod Advertised
use btstack_gatt_rs.Prelude.{ℕ, Bool, List, [], ◌∷◌, ◌++◌, Option, none, some, Result, Outcome}
use btstack_gatt_rs.Types.{Uuid, Error}
use btstack_gatt_rs.Advertising.{AdvertisingData}
use btstack_gatt_rs.Advertising
use btstack_gatt_rs.Gatt.{GattService, GattConnection, ServerEvent}
use btstack_gatt_rs.Runtime.Start.{reserve, Caller, submit}
use btstack_gatt_rs.Runtime.Session.{RecvTimeoutError, recv_timeout, Joined, shutdown}
use btstack_gatt_rs.Runtime.Loop.{Loop, Command}
use btstack_gatt_rs.Runtime.Bridge.{Stack, Transport}

pub record GattServerBuilder (T App : Type 0) : Type 0 where
  pub transport : T
  pub name : List ℕ
  pub services : List (GattService App)
  pub advertising : Option AdvertisingData

-- `unwrap_or_default`.
abbrev pub unwrap_or_default : Option AdvertisingData → AdvertisingData
unwrap_or_default none = Advertising.new
unwrap_or_default (some d) = d

module _ {T App : Type 0} where
  -- The name is "Rust GATT".
  unfoldable pub builder : T → GattServerBuilder T App
  builder transport = record {
    transport = transport;
    name = 82 ∷ 117 ∷ 115 ∷ 116 ∷ 32 ∷ 71 ∷ 65 ∷ 84 ∷ 84 ∷ [];
    services = [];
    advertising = none;
  }

  unfoldable pub set_name : GattServerBuilder T App → List ℕ → GattServerBuilder T App
  set_name b name = record b { name = name }

  unfoldable pub service : GattServerBuilder T App → GattService App → GattServerBuilder T App
  service b s = record b { services = b.services ++ s ∷ [] }

  unfoldable pub advertising_data :
      GattServerBuilder T App → AdvertisingData → GattServerBuilder T App
  advertising_data b d = record b { advertising = some d }

  unfoldable pub advertise_service_uuid : GattServerBuilder T App → Uuid → GattServerBuilder T App
  advertise_service_uuid b uuid = record b {
    advertising = some (Advertising.service_uuid (unwrap_or_default b.advertising) uuid);
  }

  unfoldable pub start : Bool → GattServerBuilder T App → Result (List ℕ) Error × Bool
  start active b = reserve active b.name b.services b.advertising

-- A server that has been started passes its calls on to the runtime.
unfoldable pub server_recv_timeout :
    Bool → List ServerEvent → List ServerEvent × Result ServerEvent RecvTimeoutError
unfolding recv_timeout
server_recv_timeout alive events = recv_timeout alive events

unfoldable pub server_notify :
    {K : Stack} {R : Transport} {App : Type 0}
    → Caller
    → Bool
    → Loop K R App
    → ℕ
    → GattConnection
    → Uuid
    → List ℕ
    → Outcome (Result (Loop K R App) Error)
unfolding submit
server_notify caller dead l answer connection uuid value =
    submit caller dead l answer connection uuid value

unfoldable pub server_shutdown :
    Bool → Bool → List Command → Joined → Bool × List Command × Result (Unit {0}) Error
unfolding shutdown
server_shutdown own worker queue joined = shutdown own worker queue joined
