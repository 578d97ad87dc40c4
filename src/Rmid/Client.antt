-- ===== src/Rmid/Client.antt =====
-- Any history of the operations on a pool of RMIDs.
use mathlib.Core.List.{Perm, Nodup}
use mathlib.Core.List.Perm
use pmctrack.Prelude.{
  ℕ, suc, ◌+◌, ◌^◌, ◌-◌, ◌≤◌, ◌<◌, ◌≡◌, ◌++◌, some, map, Ensures-at, ◌==◌, if◌then◌else◌,
}
use pmctrack.Rmid.{Policy, CmtSupport, Pool, get_rmid, put_rmid, use_rmid, set_cmt_policy}
use pmctrack.Prelude.Runs.{run, run-Nodup}
use pmctrack.Rmid.Sharing.{Inv}
use pmctrack.Rmid.Get.{Got, get_rmid_lem}
use pmctrack.Rmid.Users.{change, Held}
use pmctrack.Rmid.Users.Taking.{get_rmid-Uses}
use pmctrack.Rmid.Users.Giving.{put_rmid-Held, use_rmid-Held}

-- One call, with RMIDs up to `n`, and the number of users of each RMID after it: the one that is taken
-- has one, and an RMID that has users has one more or one less.
pub data Step (n : ℕ) (p : Pool) (users : ℕ → ℕ) : Pool → (ℕ → ℕ) → Type 0 where
  get :
      (support : CmtSupport) (random val r : ℕ) (p' : Pool)
      → get_rmid support p random val ≡ some (r, p')
      → Step n p users p' (change users r 1)
  put :
      (rmid : ℕ) (p' : Pool)
      → rmid ≤ n
      → put_rmid p rmid ≡ some p'
      → Step n p users p' (change users rmid (users rmid - 1))
  use_again :
      (rmid : ℕ) (p' : Pool)
      → rmid ≤ n
      → users rmid + 1 < 2 ^ 32
      → use_rmid p rmid ≡ some p'
      → Step n p users p' (change users rmid (if users rmid == 0 then 0 else users rmid + 1))
  choose : (policy : Policy) → Step n p users (set_cmt_policy p policy) users

pub data Reach (n : ℕ) (p : Pool) (users : ℕ → ℕ) : Pool → (ℕ → ℕ) → Type 0 where
  here : Reach n p users p users
  next : {q r : Pool} {u v : ℕ → ℕ} → Reach n p users q u → Step n q u r v → Reach n p users r v

set_cmt_policy-Held :
    (n : ℕ) (p : Pool) (policy : Policy) (users : ℕ → ℕ)
    → Held n p users
    → Held n (set_cmt_policy p policy) users
unfolding set_cmt_policy
set_cmt_policy-Held n p policy users (i, c) = (
  record {
    allocated = i.allocated;
    nodes = i.nodes;
    counted = i.counted;
    parts = i.parts;
    roomy = i.roomy;
  },
  c,
)

Got-Inv : (n : ℕ) (p : Pool) (r : ℕ) (p' : Pool) → Got n p (r, p') → Inv n p'
unfolding Got
Got-Inv n p r p' g = g.0

pub Step-Held : (n : ℕ) {p q : Pool} {u v : ℕ → ℕ} → Held n p u → Step n p u q v → Held n q v
Step-Held n {p} {u = u} i (get support random val r p' e) = (
  Got-Inv n p r p' (
      Ensures-at (get_rmid support p random val) (Got n p) (get_rmid_lem n support p random val i.0)
        e),
  Ensures-at (get_rmid support p random val) _ (get_rmid-Uses n support p random val u i) e,
)
Step-Held n {p} {u = u} i (put rmid p' h e) =
    Ensures-at (put_rmid p rmid) _ (put_rmid-Held n p rmid u i h) e
Step-Held n {p} {u = u} i (use_again rmid p' h l e) =
    Ensures-at (use_rmid p rmid) _ (use_rmid-Held n p rmid u i h l) e
Step-Held n {p} {u = u} i (choose policy) = set_cmt_policy-Held n p policy u i

Reach-Held :
    (n : ℕ) {p : Pool} {u : ℕ → ℕ} {q : Pool} {v : ℕ → ℕ}
    → Held n p u
    → Reach n p u q v
    → Held n q v
Reach-Held n i here = i
Reach-Held n i (next r s) = Step-Held n (Reach-Held n i r) s

-- From a pool that has room for `n` RMIDs, each of them free or assigned once and counting its users,
-- and after any sequence of calls that take, use again and give back RMIDs up to `n` and change the
-- policy: each RMID from 1 to `n` is again free or assigned and only once, counts its users, and is
-- free just when it has none. No RMID is lost, and none is given out while it has a user. How a pool
-- is set up is not part of this: with the memory that the code asks for, it writes behind an array.
pub Reach-Counts :
    (n : ℕ) {p q : Pool} {users users' : ℕ → ℕ}
    → Held n p users
    → Reach n p users q users'
    → Held n q users'
      × Perm (map suc q.available_rmids ++ q.assigned_rmids) (run 1 n)
      × Nodup (map suc q.available_rmids ++ q.assigned_rmids)
Reach-Counts n h s =
    let v = Reach-Held n h s in (v, v.0.parts, Perm.nodup (Perm.symm v.0.parts) (run-Nodup 1 n))
