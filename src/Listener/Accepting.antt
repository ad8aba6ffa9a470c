-- ===== src/Listener/Accepting.antt =====
-- The connections that a listener accepts: each accept that succeeds starts the next one.
use yftpserver.Prelude.{
  ℕ, suc, ◌+◌, ◌≡◌, refl, Bool, true, false, [], ◌∷◌, List, ◌==◌, if◌then◌else◌, arith,
}
use yftpserver.Listener.{Listener, handle_accept, start_accept}

-- The accepts end in this order, each with whether it failed, as long as one is pending: the listener
-- then, and the number of connections that were started.
unfoldable pub accept_all : List Bool → Listener → Listener × ℕ
accept_all [] l = (l, 0)
accept_all (failed ∷ more) l =
    let (l', starts) = handle_accept failed l in
    let (last, n) = accept_all more l' in
    if l.pending == 0 then (l, 0) else (last, (if starts then 1 else 0) + n)

-- How many accepts end before the first that fails.
abbrev pub before_failure : List Bool → ℕ
before_failure [] = 0
before_failure (true ∷ more) = 0
before_failure (false ∷ more) = suc (before_failure more)

accept_all_none : (ends : List Bool) (l : Listener) → l.pending ≡ 0 → accept_all ends l ≡ (l, 0)
unfolding accept_all
accept_all_none [] l none_left = refl
accept_all_none (failed ∷ more) l none_left = rw none_left refl

-- A listener with one pending accept starts a connection for each accept up to the first that fails, and
-- for none from then on, while its flag goes on to say what it said.
pub accept_all-before_failure :
    (ends : List Bool) (l : Listener)
    → l.pending ≡ 1
    → ((accept_all ends l).1 ≡ before_failure ends)
      × ((accept_all ends l).0.is_listening ≡ l.is_listening)
unfolding accept_all handle_accept start_accept
accept_all-before_failure [] l one = (refl, refl)
accept_all-before_failure (true ∷ more) l one =
    rw (one, accept_all_none more (record l { pending = 0 }) refl) (refl, refl)
accept_all-before_failure (false ∷ more) l one =
    let (n, flag) = accept_all-before_failure more (record l { pending = 1 }) refl in
    rw (one, n, flag) (omega arith, refl)
