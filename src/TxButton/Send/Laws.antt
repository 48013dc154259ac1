-- ===== src/TxButton/Send/Laws.antt =====
-- The calls of the three group buttons, and the subscriptions that presses leave open.
use qrucial_dao.Common.{
  ℕ, ◌≡◌, ◌≢◌, refl, sym, ap, ◌∙◌, Bool, true, false, List, [], ◌∷◌, ◌==◌, any, ==_refl, arith, All,
}
use qrucial_dao.TxButton.{
  Numbers, Input, ParamField, Result, ok, throws, map_result, TxType, query, rpc, signed_tx,
  unsigned_tx, sudo_tx, unchecked_sudo_tx, constant,
}
use qrucial_dao.TxButton.Guard.{is_sudo}
use qrucial_dao.TxButton.Send.{
  tx, sudo, prepare, Handle, no_handle, fn, drop_handle, promise, Outcome, subscribed, failed,
  raised, Session, remove, drop_previous, after_call, Event, pressed, called, press, step,
}

abbrev pub steps : List Event → Session → Session
steps [] s = s
steps (e ∷ events) s = steps events (step e s).0

-- Presses in turn, each with what comes of its call before the next.
abbrev pub in_turn : List (TxType × Outcome) → List Event
in_turn [] = []
in_turn ((t, o) ∷ ps) = pressed ∷ called t o ∷ in_turn ps

abbrev pub fresh : Session
fresh = record { unsub = no_handle; live = [] }

-- The subscriptions that the button can still close.
abbrev pub held : Handle → List ℕ
held (fn id) = id ∷ []
held _ = []

abbrev pub NoSudo : List (TxType × Outcome) → Type 0
NoSudo = All (λ p. is_sudo p.0 ≡ false)

-- The invariant: what is open is what the button holds.
abbrev IsHeld : Session → Type 0
IsHeld s = s.live ≡ held s.unsub

drop_handle-IsHeld :
    (h : Handle) (live : List ℕ)
    → live ≡ held h
    → ((drop_handle h live).0.live ≡ []) × (held (drop_handle h live).0.unsub ≡ [])
unfolding drop_handle
drop_handle-IsHeld (fn id) live e = (rw e (rw ==_refl refl), refl)
drop_handle-IsHeld no_handle live e = (e, refl)
drop_handle-IsHeld (promise p) live e = (e, refl)

after_call-IsHeld :
    (t : TxType) (o : Outcome) (s : Session)
    → is_sudo t ≡ false
    → s.live ≡ []
    → held s.unsub ≡ []
    → IsHeld (after_call t o s).0
unfolding after_call
after_call-IsHeld constant o s ns e h = e ∙ sym h
after_call-IsHeld query (subscribed id) s ns e h = ap (id ∷◌) e
after_call-IsHeld rpc (subscribed id) s ns e h = ap (id ∷◌) e
after_call-IsHeld signed_tx (subscribed id) s ns e h = ap (id ∷◌) e
after_call-IsHeld unsigned_tx (subscribed id) s ns e h = ap (id ∷◌) e
after_call-IsHeld signed_tx (failed x) s ns e h = e
after_call-IsHeld unsigned_tx (failed x) s ns e h = e
after_call-IsHeld sudo_tx o s ns e h = cc
after_call-IsHeld unchecked_sudo_tx o s ns e h = cc
after_call-IsHeld t o s ns e h = e ∙ sym h

press-IsHeld : (s : Session) → IsHeld s → ((press s).0.live ≡ []) × (held (press s).0.unsub ≡ [])
unfolding press drop_previous
press-IsHeld s h = drop_handle-IsHeld s.unsub s.live h

steps-IsHeld :
    (ps : List (TxType × Outcome)) (s : Session)
    → NoSudo ps
    → IsHeld s
    → IsHeld (steps (in_turn ps) s)
unfolding step
steps-IsHeld [] s ns h = h
steps-IsHeld ((t, o) ∷ ps) s (n, ns) h =
    let (live_nil, held_nil) = press-IsHeld s h in
    steps-IsHeld ps (after_call t o (press s).0).0 ns
      (after_call-IsHeld t o (press s).0 n live_nil held_nil)

-- After any presses of buttons that make no sudo call, each of which comes after the call of the one
-- before has ended, the open subscriptions are exactly the one that the button holds and closes at
-- the next press, or none.
pub presses-held :
    (ps : List (TxType × Outcome))
    → NoSudo ps
    → (steps (in_turn ps) fresh).live ≡ held (steps (in_turn ps) fresh).unsub
presses-held ps ns = steps-IsHeld ps fresh ns refl

abbrev pub is_constant : TxType → Bool
is_constant constant = true
is_constant _ = false

-- The subscription `id` is open, and the button does not hold it as a function.
record IsLost (id : ℕ) (s : Session) : Type 0 where
  is_open : any (λ j. j == id) s.live ≡ true
  not_held : any (λ j. j == id) (held s.unsub) ≡ false

-- No call is given the subscription `id`.
abbrev pub IsNew : ℕ → Event → Type 0
IsNew id (called t (subscribed j)) = j ≢ id
IsNew id _ = Unit

any-remove :
    (id k : ℕ) (live : List ℕ)
    → k ≢ id
    → any (λ j. j == id) live ≡ true
    → any (λ j. j == id) (remove k live) ≡ true
any-remove id k [] ne h = h
any-remove id k (j ∷ live) ne h = ground (arith, any-remove id k live ne)

any-remove_held :
    (id : ℕ) (h : Handle) (live : List ℕ)
    → IsLost id (record { unsub = h; live = live })
    → IsLost id (drop_handle h live).0
unfolding drop_handle
any-remove_held id (fn k) live l = record {
  is_open = any-remove id k live (λ e. ground (arith, l.not_held)) l.is_open;
  not_held = refl;
}
any-remove_held id no_handle live l = l
any-remove_held id (promise p) live l = l

after_call-IsLost :
    (id : ℕ) (t : TxType) (o : Outcome) (s : Session)
    → IsNew id (called t o)
    → IsLost id s
    → IsLost id (after_call t o s).0
unfolding after_call
after_call-IsLost id constant o s n l = l
after_call-IsLost id t (subscribed j) s n l = ground arith
after_call-IsLost id t raised s n l = l
after_call-IsLost id query (failed x) s n l = l
after_call-IsLost id rpc (failed x) s n l = l
after_call-IsLost id t (failed x) s n l = record { is_open = l.is_open; not_held = refl }

step-IsLost : (id : ℕ) (e : Event) (s : Session) → IsNew id e → IsLost id s → IsLost id (step e s).0
unfolding step press drop_previous
step-IsLost id pressed s n l = any-remove_held id s.unsub s.live l
step-IsLost id (called t o) s n l = after_call-IsLost id t o s n l

steps-IsLost :
    (id : ℕ) (events : List Event) (s : Session)
    → All (IsNew id) events
    → IsLost id s
    → IsLost id (steps events s)
steps-IsLost id [] s n l = l
steps-IsLost id (e ∷ events) s (n, ns) l =
    steps-IsLost id events (step e s).0 ns (step-IsLost id e s n l)

sudo-IsLost :
    (id : ℕ) (t : TxType) (s : Session)
    → is_sudo t ≡ true
    → IsLost id (step (called t (subscribed id)) s).0
unfolding step after_call
sudo-IsLost id sudo_tx s h = record { is_open = rw ==_refl refl; not_held = refl }
sudo-IsLost id unchecked_sudo_tx s h = record { is_open = rw ==_refl refl; not_held = refl }
sudo-IsLost id _ s h = cc

-- A sudo call's subscription stays open, whatever is pressed later, also while calls are under way,
-- and whatever comes of it, as long as no later call is given the same one: the button keeps a
-- promise, which no press calls.
pub presses-sudo_open :
    (id : ℕ) (t : TxType) (s : Session) (events : List Event)
    → is_sudo t ≡ true
    → All (IsNew id) events
    → any (λ j. j == id) (steps (called t (subscribed id) ∷ events) s).live ≡ true
presses-sudo_open id t s events h ns = (steps-IsLost id events _ ns (sudo-IsLost id t s h)).is_open

live-called :
    (id : ℕ) (t : TxType) (s : Session)
    → is_constant t ≡ false
    → (after_call t (subscribed id) s).0.live ≡ id ∷ s.live
unfolding after_call
live-called id constant s h = cc
live-called id query s h = refl
live-called id rpc s h = refl
live-called id signed_tx s h = refl
live-called id unsigned_tx s h = refl
live-called id sudo_tx s h = refl
live-called id unchecked_sudo_tx s h = refl

apart : (j id : ℕ) → j ≢ id → (j == id) ≡ false
apart j id h = ground arith

held-called :
    (id j : ℕ) (u : TxType) (s : Session)
    → is_constant u ≡ false
    → j ≢ id
    → any (λ k. k == id) (held (after_call u (subscribed j) s).0.unsub) ≡ false
unfolding after_call
held-called id j constant s h ne = cc
held-called id j sudo_tx s h ne = refl
held-called id j unchecked_sudo_tx s h ne = refl
held-called id j query s h ne = rw (apart j id ne) refl
held-called id j rpc s h ne = rw (apart j id ne) refl
held-called id j signed_tx s h ne = rw (apart j id ne) refl
held-called id j unsigned_tx s h ne = rw (apart j id ne) refl

-- Another subscription takes the place of the one that the button holds.
replaced :
    (id j : ℕ) (t u : TxType) (s : Session)
    → is_constant t ≡ false
    → is_constant u ≡ false
    → j ≢ id
    → IsLost id (steps (called t (subscribed id) ∷ called u (subscribed j) ∷ []) s)
unfolding step
replaced id j t u s h k ne = record {
  is_open =
      rw (live-called j u (after_call t (subscribed id) s).0 k, live-called id t s h, apart j id ne)
        (rw ==_refl refl);
  not_held = held-called id j u (after_call t (subscribed id) s).0 k ne;
}

-- Where the calls of two presses are given different subscriptions, and no press comes between the
-- ends of these calls, as when the second press came before the first call had ended, the first
-- subscription stays open whatever is pressed later and whatever comes of it, as long as no later
-- call is given the same one.
pub presses-overlap_open :
    (id j : ℕ) (t u : TxType) (s : Session) (events : List Event)
    → is_constant t ≡ false
    → is_constant u ≡ false
    → j ≢ id
    → All (IsNew id) events
    → any
        (λ k. k == id)
        (steps (called t (subscribed id) ∷ called u (subscribed j) ∷ events) s).live
      ≡ true
presses-overlap_open id j t u s events h k ne ns =
    (steps-IsLost id events _ ns (replaced id j t u s h k ne)).is_open

map_result-map_result :
    {A B C : Type 0} (f : A → B) (g : B → C) (r : Result A)
    → map_result g (map_result f r) ≡ map_result (λ a. g (f a)) r
map_result-map_result f g (ok a) = refl
map_result-map_result f g throws = refl

-- On the same fields and inputs the three buttons of the group make one call: unsigned as it is,
-- signed as it is, and wrapped in `sudo`; where the inputs cannot be converted, none does.
pub prepare-group :
    (J : Numbers) (fs : List ParamField) (is : List (Input (J.Num)))
    → (prepare J unsigned_tx fs is ≡ prepare J signed_tx fs is)
      × (prepare J sudo_tx fs is ≡ map_result sudo (prepare J signed_tx fs is))
unfolding prepare
prepare-group J fs is = (refl, sym (map_result-map_result tx sudo _))
