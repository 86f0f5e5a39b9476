-- ===== src/Runtime/Start/Conclusion.antt =====
-- The end of the thread (btstack-core/src/runtime.rs, `start_with_advertising`).
use btstack_gatt_rs.Prelude.{
  ℕ, ◌+◌, ◌≡◌, ◌≢◌, refl, true, List, [], ◌∷◌, ◌++◌, some, Result, ok, err, arith, leb, any, subst,
  ap, sym, ◌∙◌,
}
use btstack_gatt_rs.Types.{Error, runtime_panicked, transport_panicked}
use btstack_gatt_rs.Gatt.{ServerEvent, error}
use btstack_gatt_rs.Runtime.Bridge.{Stack, Transport}
use btstack_gatt_rs.Runtime.Bridge.Worker.{Worker}
use btstack_gatt_rs.Runtime.Loop.{Loop, Step, goes, finishes, fails, panics, last}
use btstack_gatt_rs.Runtime.Stop.{Stopped, stop_controller, stop_controller-Stopped}
use btstack_gatt_rs.Runtime.Start.{combine, ended, announce, conclude}

ended_ok {ℓ} :
    {A : Type ℓ} (x : Error) (s : Step A) → ended x s ≡ some (ok tt) → s ≡ finishes (last s)
unfolding ended
ended_ok x (goes a) h = cc
ended_ok x (finishes a) h = refl
ended_ok x (fails a e) h = cc
ended_ok x (panics a) h = cc

ended_fails {ℓ} :
    {A : Type ℓ} (x e : Error) (s : Step A) (a : A) → s ≡ fails a e → ended x s ≡ some (err e)
unfolding ended
ended_fails x e s a h = rw h refl

ended_total {ℓ} :
    {A : Type ℓ} (x : Error) (s : Step A)
    → s ≢ goes (last s)
    → (r : Result (Unit {0}) Error) × (ended x s ≡ some r)
unfolding ended
ended_total x (goes a) n = absurd (n refl)
ended_total x (finishes a) n = (ok tt, refl)
ended_total x (fails a e) n = (err e, refl)
ended_total x (panics a) n = (err x, refl)

combine_ok : (a b : Result (Unit {0}) Error) → combine a b ≡ ok tt → (a ≡ ok tt) × (b ≡ ok tt)
unfolding combine
combine_ok (ok u) b h = (refl, h)
combine_ok (err e) b h = cc

combine_err : (a b : Result (Unit {0}) Error) (e : Error) → a ≡ err e → combine a b ≡ err e
unfolding combine
combine_err a b e h = rw h refl

module _ {K : Stack} {R : Transport} {App : Type 0} where
  -- What the thread's end means, after a loop that ended in `s`.
  pub record Concluded (s : Step (Loop K R App)) (w : Worker K R App) (r : Result (Unit {0}) Error)
      : Type 0 where
    pub success : r ≡ ok tt → (s ≡ finishes (last s)) × (K.is_off w.stack ≡ true)
    pub first_error : (l : Loop K R App) (e : Error) → s ≡ fails l e → r ≡ err e
    pub told :
        (e : Error) → r ≡ err e → (es : List ServerEvent) × (w.state.events ≡ es ++ error e ∷ [])

  announce-told :
      (w : Worker K R App) (r : Result (Unit {0}) Error) (e : Error)
      → r ≡ err e
      → (es : List ServerEvent) × ((announce w r).state.events ≡ es ++ error e ∷ [])
  unfolding announce
  announce-told w (ok u) e h = cc
  announce-told w (err x) e h = (w.state.events, ground (arith, h))

  announce-stack :
      (w : Worker K R App) (r : Result (Unit {0}) Error) → (announce w r).stack ≡ w.stack
  unfolding announce
  announce-stack w (ok u) = refl
  announce-stack w (err x) = refl

  Stopped-not_goes : (t : Step (Worker K R App)) → Stopped t → t ≢ goes (last t)
  Stopped-not_goes (goes w) k = absurd k
  Stopped-not_goes (finishes w) k = λ e. cc
  Stopped-not_goes (fails w x) k = λ e. cc
  Stopped-not_goes (panics w) k = λ e. cc

  conclude_of :
      (s : Step (Loop K R App)) (t : Step (Worker K R App)) (a b : Result (Unit {0}) Error)
      → ended runtime_panicked s ≡ some a
      → ended transport_panicked t ≡ some b
      → Stopped t
      → Concluded s (announce (last t) (combine a b)) (combine a b)
  conclude_of s t a b e f k = record {
    success = λ h.
        let (x, y) = combine_ok a b h in
        let left = ended_ok runtime_panicked s (e ∙ ap some x) in
        let right = ended_ok transport_panicked t (f ∙ ap some y) in
        (left, rw (announce-stack (last t) (combine a b)) (subst Stopped right k));
    first_error =
        λ l x h. combine_err a b x (ground (arith, sym e ∙ ended_fails runtime_panicked x s l h));
    told = announce-told (last t) (combine a b);
  }

  -- The thread ends, once its loop has and the clock has gone three seconds past that. It succeeds only
  -- if the loop finished without an error and the controller is off; an error of the loop comes before
  -- one of the shutdown; and an error is the last event that the application is told.
  pub conclude-Concluded :
      (now : ℕ) (readings : List ℕ) (s : Step (Loop K R App))
      → any (leb (now + 3000)) readings ≡ true
      → s ≢ goes (last s)
      → (w : Worker K R App) × (r : Result (Unit {0}) Error) × (conclude now readings s
          ≡ some (w, r))
        × Concluded s w r
  unfolding conclude
  conclude-Concluded now readings s h n =
      let w = (last s).worker in
      let t = stop_controller now readings w in
      let k = stop_controller-Stopped now readings w h in
      let (a, e) = ended_total runtime_panicked s n in
      let (b, f) = ended_total transport_panicked t (Stopped-not_goes t k) in
      (
        announce (last t) (combine a b),
        combine a b,
        rw (e, f, conclude) refl,
        conclude_of s t a b e f k,
      )
