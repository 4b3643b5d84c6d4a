-- ===== src/Kernel/Leader.antt =====
-- `electLeader` of src/kernel-impl/memory/lock.ts over the types of src/kernel/lock.ts. An election is
-- the local variables of the call, with the calls of its two handlers so far, the latest last; the
-- handlers are registered from the start. Where the code awaits the lock, the step up to there and
-- the rest are separate functions, so that other steps can come in between: what the first has to
-- tell the second stands in `acquiring`, `extending` and `leaving`.
pub mod Terms
mod Tests
use openclaw_enterprise_plug.Common.{
  ℕ, zero, suc, ◌+◌, String, ◌≡◌, Bool, true, false, Option, none, some, List, [], ◌∷◌, ◌++◌,
  append, if◌then◌else◌,
}
use openclaw_enterprise_plug.Kernel.Lock.{Locks, LockHandle, acquire, release, extend}

pub data Call : Type 0 where
  elected deposed : Call

-- `renewing` says whether the interval runs. `acquiring` is the answer of `acquire` that `tryAcquire`
-- still awaits, `extending` are those of `extend` that ticks await, and `leaving` is the number of
-- resignations that await their `release`.
pub record LeaderElection : Type 0 where
  pub leader : Bool
  pub handle : Option LockHandle
  pub renewing : Bool
  pub calls : List Call
  pub acquiring : Option (Option LockHandle)
  pub extending : List Bool
  pub leaving : ℕ

pub record World : Type 0 where
  pub locks : Locks
  pub election : LeaderElection

abbrev pub leader_key : String → String
leader_key group = append "leader:" group

abbrev pub start : LeaderElection
start = record {
  leader = false;
  handle = none;
  renewing = false;
  calls = [];
  acquiring = none;
  extending = [];
  leaving = 0;
}

-- `electLeader` with its one `tryAcquire`, up to where that awaits the answer of `acquire`.
unfoldable pub elect_leader : String → ℕ → String → ℕ → ℕ → Locks → World
elect_leader group ttl token t t' locks =
    let (locks', h) = acquire (leader_key group) ttl token t t' locks in
    record { locks = locks'; election = record start { acquiring = some h } }

-- The rest of `tryAcquire`.
abbrev pub took : Option LockHandle → LeaderElection → LeaderElection
took none e = record e { handle = none; acquiring = none }
took (some h) e = record e {
  leader = true;
  handle = some h;
  renewing = true;
  calls = e.calls ++ elected ∷ [];
  acquiring = none;
}

abbrev pub took_if : Option (Option LockHandle) → LeaderElection → LeaderElection
took_if none e = e
took_if (some answer) e = took answer e

unfoldable pub acquired : World → World
acquired w = record w { election = took_if w.election.acquiring w.election }

renew : ℕ → ℕ → Option LockHandle → World → World
renew ttl now none w = w
renew ttl now (some h) w =
    let (locks, (h', ok)) = extend h ttl now w.locks in
    record {
      locks = locks;
      election = record w.election {
        handle = some h';
        extending = w.election.extending ++ ok ∷ [];
      };
    }

-- One tick of the interval, up to where it awaits the answer of `extend`; a cleared interval does
-- not tick.
unfoldable pub tick : ℕ → ℕ → World → World
unfolding renew
tick ttl now w = if w.election.renewing then renew ttl now w.election.handle w else w

-- What the interval does with the answers of `extend`, the first first.
abbrev pub renewed : List Bool → LeaderElection → LeaderElection
renewed [] e = e
renewed (ok ∷ oks) e = if ok then record e { extending = oks } else record e {
  leader = false;
  renewing = false;
  calls = e.calls ++ deposed ∷ [];
  extending = oks;
}

unfoldable pub extended : World → World
extended w = record w { election = renewed w.election.extending w.election }

give_up : Option LockHandle → World → World
give_up none w = record w { election = record w.election { renewing = false } }
give_up (some h) w = record {
  locks = release h w.locks;
  election = record w.election { renewing = false; leaving = suc w.election.leaving };
}

-- `resign` up to where it awaits the answer of `release`.
unfoldable pub resign : World → World
unfolding give_up
resign w = give_up w.election.handle w

-- The rest of `resign`.
abbrev pub left : ℕ → LeaderElection → LeaderElection
left zero e = e
left (suc n) e = record e { leader = false; calls = e.calls ++ deposed ∷ []; leaving = n }

unfoldable pub resigned : World → World
resigned w = record w { election = left w.election.leaving w.election }
