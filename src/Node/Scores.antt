-- ===== src/Node/Scores.antt =====
-- How a challenge that the council approves moves the scores of its two auditors
-- (qdao-node/exo-pallet/src/lib.rs and qdao-node/audit-pallet/src/lib.rs together).
use Prim.Native.Nat.{◌^◌}
use mathlib.Core.Path.{subst}
use qrucial_dao.Common.{
  ℕ, zero, suc, ◌+◌, ◌≤◌, ◌<◌, ◌≡◌, refl, sym, ◌∙◌, ap, Bool, true, false, not, Option, none, some,
  List, [], ◌∷◌, all, get_elem?, Option-cases, inl, inr, some_injective, none-ne-some, arith,
}
use qrucial_dao.Common.Text.{Text, text_eq, text_eq_refl}
use qrucial_dao.Node.{
  Origin, Error, Dispatch, ok, err, ◌>>=◌, Storage, ok_injective, err-ne-ok, bind-ok,
}
use qrucial_dao.Node.Elo.{calculate}
use qrucial_dao.Node.Elo.Laws.{calculate_bounds}
use qrucial_dao.Node.Auditors.{AuditorData, Winner, Config, new_scores, write_scores, apply_result}
use qrucial_dao.Node.Reviews.{Report, Challenge, challengers, reporters}
use qrucial_dao.Node.Reviews.Calls.{approve_challenge, close_challenge, report_auditor}
use qrucial_dao.Node.Reviews.Names.{is_apart, get_elem?-reporters}
use qrucial_dao.Node.Reviews.Laws.{Reach, Reach-IsSound}
use qrucial_dao.Node.Reviews
use qrucial_dao.Node.Auditors
use qrucial_dao.Node.Runtime.{runtime}

score_in : Option AuditorData → Option ℕ
score_in none = none
score_in (some d) = d.score

-- The score of an account.
unfoldable pub score_of : Storage AuditorData → Text → Option ℕ
unfolding score_in
score_of m x = score_in (m x)

all-get :
    (p : Text → Bool) (cs : List Challenge) (i : ℕ) (c : Challenge)
    → all p (challengers cs) ≡ true
    → get_elem? cs i ≡ some c
    → p c.auditor ≡ true
all-get p [] i c h g = absurd (none-ne-some g)
all-get p (x ∷ cs) zero c h g = subst (λ y. p (y.auditor) ≡ true) (some_injective g) (ground arith)
all-get p (x ∷ cs) (suc i) c h g = ground (arith, all-get p cs i c)

unfoldable pub Moved : ℕ → ℕ → Option ℕ → Option ℕ → Type 0
Moved w l (some w') (some l') = ((w ≤ w') × (w' ≤ w + 32)) × ((l' ≤ l) × (l ≤ l' + 32))
Moved w l _ _ = ⊥

module _ (config : Config) where
  -- The state after a game that the first player wins.
  unfoldable pub after_win :
      Text
      → Text
      → AuditorData
      → AuditorData
      → ℕ × ℕ
      → Auditors.State config
      → Auditors.State config
  after_win x y d e scores s = record s {
    auditor_map = write_scores config x y d e Winner.player0 scores s.auditor_map;
    events = Auditors.game_result x y Winner.player0 ∷ s.events;
  }

  after_win-Moved :
      (x y : Text) (d e : AuditorData) (w l w' l' : ℕ) (s : Auditors.State config)
      → text_eq y x ≡ false
      → calculate config.pow w l ≡ some (w', l')
      → w + 32 < 2 ^ 32
      → 32 ≤ l
      → l < 2 ^ 32
      → Moved w l
          (score_of (after_win x y d e (w', l') s).auditor_map x)
          (score_of (after_win x y d e (w', l') s).auditor_map y)
  unfolding after_win score_of Moved
  after_win-Moved x y d e w l w' l' s apart eq top low high =
      rw (apart, text_eq_refl x, text_eq_refl y)
        (calculate_bounds config.pow w l w' l' eq top low high)

  apply_result-Moved :
      (x y : Text) (d e : AuditorData) (w l : ℕ) (s s' : Auditors.State config)
      → text_eq y x ≡ false
      → s.auditor_map x ≡ some d
      → d.score ≡ some w
      → s.auditor_map y ≡ some e
      → e.score ≡ some l
      → w + 32 < 2 ^ 32
      → 32 ≤ l
      → l < 2 ^ 32
      → apply_result config x y Winner.player0 s ≡ ok s'
      → Moved w l (score_of s'.auditor_map x) (score_of s'.auditor_map y)
  unfolding apply_result new_scores after_win
  apply_result-Moved x y d e w l s s' apart hx hw hy hl top low high h =
      elim (Option-cases (calculate config.pow w l)) [
        | inl over ↦
            let failed : apply_result config x y Winner.player0 s
                ≡ err Error.unexpected_elo_overflow =
              rw (hx, hw, hy, hl, over) refl in
            absurd (err-ne-ok (sym failed ∙ h))
        | inr ((w', l'), eq) ↦
            let done : apply_result config x y Winner.player0 s
                ≡ ok (after_win x y d e (w', l') s) =
              rw (hx, hw, hy, hl, eq) refl in
            rw (← ok_injective (sym done ∙ h))
              (after_win-Moved x y d e w l w' l' s apart eq top low high)
      ]

module _ (config : Config) (approve reject remove : Origin → Dispatch (Unit {0})) where
  abbrev pub chain : Reviews.Runtime
  chain = runtime config approve reject remove

  -- What a close that succeeds leaves in the world.
  close_challenge-world :
      (hash : Text) (r i : ℕ) (st : Reviews.ChallengeState) (w : Winner)
      (s s' : Reviews.State chain) (report : Report) (c : Challenge)
      → get_elem? (s.reports hash) r ≡ some report
      → get_elem? (s.challenges hash r) i ≡ some c
      → close_challenge chain hash r i st w s ≡ ok s'
      → apply_result config c.auditor report.auditor w s.world ≡ ok s'.world
  unfolding close_challenge report_auditor
  close_challenge-world hash r i st w s s' report c there stored h =
      let after : chain.World → Dispatch (Reviews.State chain) = λ world. ok (record s {
        challenges =
            Reviews.write_at hash r (Reviews.set_state i st (s.challenges hash r)) s.challenges;
        world = world;
      }) in
      let done : close_challenge chain hash r i st w s
          ≡ (apply_result config c.auditor report.auditor w s.world >>= after) =
        rw (there, stored) refl in
      let (world, played, written) =
        bind-ok (apply_result config c.auditor report.auditor w s.world) after s' (sym done ∙ h) in
      played ∙ ap ok (ap (λ x. x.world) (ok_injective written))

  approve_challenge-world :
      (o : Origin) (hash : Text) (r i : ℕ) (s s' : Reviews.State chain) (report : Report)
      (c : Challenge)
      → get_elem? (s.reports hash) r ≡ some report
      → get_elem? (s.challenges hash r) i ≡ some c
      → approve_challenge chain o hash r i s ≡ ok s'
      → apply_result config c.auditor report.auditor Winner.player0 s.world ≡ ok s'.world
  unfolding approve_challenge
  approve_challenge-world o hash r i s s' report c there stored h =
      let (_, _, closing) = bind-ok (approve o) _ s' h in
      let (closed, closes, noted) =
        bind-ok (close_challenge chain hash r i Reviews.accepted Winner.player0 s) _ s' closing in
      close_challenge-world hash r i Reviews.accepted Winner.player0 s closed report c there stored
        closes
      ∙ ap ok (ap (λ x. x.world) (ok_injective noted))

-- In every state of the chain: where the council's approval of a challenge succeeds, with a score of
-- the challenger less than 2^32 - 32 and one of the auditor of the report from 32 to 2^32 - 1, the
-- former rises by 32 at most and the latter falls by 32 at most, and neither moves the other way.
pub approve_challenge-Moved :
    (config : Config) (approve reject remove : Origin → Dispatch (Unit {0})) (o : Origin)
    (hash : Text) (r i : ℕ) (s s' : Reviews.State (chain config approve reject remove))
    (report : Report) (c : Challenge) (d e : AuditorData) (w l : ℕ)
    → Reach (chain config approve reject remove) s
    → get_elem? (s.reports hash) r ≡ some report
    → get_elem? (s.challenges hash r) i ≡ some c
    → s.world.auditor_map c.auditor ≡ some d
    → d.score ≡ some w
    → s.world.auditor_map report.auditor ≡ some e
    → e.score ≡ some l
    → w + 32 < 2 ^ 32
    → 32 ≤ l
    → l < 2 ^ 32
    → approve_challenge (chain config approve reject remove) o hash r i s ≡ ok s'
    → Moved w l
        (score_of s'.world.auditor_map c.auditor)
        (score_of s'.world.auditor_map report.auditor)
approve_challenge-Moved config approve reject remove o hash r i s s' report c d e w l reach there
      stored hd hw he hl top low high h =
    let far =
      all-get (is_apart (get_elem? (reporters (s.reports hash)) r)) (s.challenges hash r) i c
        ((Reach-IsSound _ s reach).apart hash r) stored in
    let named = get_elem?-reporters (s.reports hash) r report there in
    let apart : not (text_eq report.auditor c.auditor) ≡ true =
      subst (λ n. is_apart n c.auditor ≡ true) named far in
    apply_result-Moved config c.auditor report.auditor d e w l s.world s'.world (ground arith) hd hw
      he hl top low high
      (approve_challenge-world config approve reject remove o hash r i s s' report c there stored h)
