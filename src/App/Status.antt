-- ===== src/App/Status.antt =====
-- The status of the program in main.go and the variables that its goroutines share. What the program
-- does to the world is a list of acts, and a goroutine that has reached its end is a thread.
use p2p_tun.Prelude.{Bool, List, Option, [], false, none, some, true, ℕ, ◌++◌, ◌-◌}
use p2p_tun.Relay.Session.{Session}
use p2p_tun.Server.{ServiceMapping}
use p2p_tun.Text.{Text}

-- AppStatus; a start time of zero is none.
pub record AppStatus : Type 0 where
  pub running : Bool
  pub mode : Text
  pub public_addr : Text
  pub local_ports : Text
  pub nat_type : Text
  pub started_at : Option ℕ
  pub last_error : Text
  pub services : List ServiceMapping

-- A local port that is opened at a public port.
pub record PortMapping : Type 0 where
  pub ext_port : ℕ
  pub local_port : ℕ
  pub proto : Text

pub data Act : Type 0 where
  adds_mapping deletes_mapping forwards : PortMapping → Act
  keeps_alive closes_stun : Act

-- A tunnel that forwards for ever, or one that waits for stopCh with its deferred calls.
pub data Thread : Type 0 where
  serving waiting : List PortMapping → Thread

pub record App : Type 0 where
  pub status : AppStatus
  pub relay_client : Option Session
  pub auth_key : Text
  pub acts : List Act
  pub threads : List Thread

abbrev pub act : List Act → App → App
act new s = record s { acts = s.acts ++ new }

-- SetRunning
unfoldable pub set_running : Text → Text → ℕ → App → App
set_running mode public_addr now s = record s {
  status = record s.status {
    running = true;
    mode = mode;
    public_addr = public_addr;
    started_at = some now;
    last_error = [];
  };
}

-- SetStopped
unfoldable pub set_stopped : Text → App → App
set_stopped e s = record s { status = record s.status { running = false; last_error = e } }

-- SetNATType
unfoldable pub set_nat_type : Text → App → App
set_nat_type nat_type s = record s { status = record s.status { nat_type = nat_type } }

-- The uptime that ToJSON reports, in seconds: nothing resets the start time.
unfoldable pub uptime_seconds : ℕ → AppStatus → ℕ
uptime_seconds now s = elim s.started_at [ none ↦ 0 | some t ↦ now - t ]
