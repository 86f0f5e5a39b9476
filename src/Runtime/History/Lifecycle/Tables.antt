-- ===== src/Runtime/History/Lifecycle/Tables.antt =====
-- The lives of connections through the changes of the table of connections and of the events
-- (btstack-core/src/runtime.rs).
use mathlib.Core.List.{append-nil}
use btstack_gatt_rs.Prelude.{
  ℕ, ◌+◌, ◌≡◌, ◌≢◌, false, List, [], ◌∷◌, ◌++◌, Option, none, some, arith, if◌then◌else◌, HashMap,
  insert_key, remove_key, ◌==◌, nat_eq, nat_beq, ap, sym, ◌∙◌, Bool-cases, inl, inr,
}
use btstack_gatt_rs.Gatt.{GattConnection, ServerEvent, connected, disconnected}
use btstack_gatt_rs.Runtime.Link.Tables.{farewell}
use btstack_gatt_rs.Runtime.Drain.Generations.{Unique}
use btstack_gatt_rs.Runtime.History.{same_generation}
use btstack_gatt_rs.Runtime.History.Lifecycle.{
  Life, unknown, alive, gone, use_it, meet, life, life-snoc, IsLive, Owner, Lives,
}

insert-Owner :
    (connections : HashMap ℕ GattConnection) (handle g : ℕ) (c : GattConnection)
    → ((x : GattConnection) → connections handle ≡ some x → x.generation ≡ c.generation)
    → Owner connections g
    → Owner (insert_key handle c connections) g
insert-Owner connections handle g c keeps (h, d, e, f) = elim (Bool-cases (nat_beq handle h)) [
  | inl q ↦
      let same : connections handle ≡ connections h = ap connections (ground (arith, q)) in
      (h, c, ground (arith, q), sym (keeps d (same ∙ e)) ∙ f)
  | inr q ↦ (h, d, ground (arith, e, q), f)
]

pub insert-IsLive :
    (connections : HashMap ℕ GattConnection) (handle : ℕ) (c y : GattConnection)
    → ((x : GattConnection) → connections handle ≡ some x → x.generation ≡ c.generation)
    → IsLive connections y
    → IsLive (insert_key handle c connections) y
insert-IsLive connections handle c y keeps (d, e, f) = elim (Bool-cases (nat_beq handle y.handle)) [
  | inl q ↦
      let same : connections handle ≡ connections y.handle = ap connections (ground (arith, q)) in
      (c, ground (arith, q), sym (keeps d (same ∙ e)) ∙ f)
  | inr q ↦ (d, ground (arith, e, q), f)
]

remove-Owner :
    (connections : HashMap ℕ GattConnection) (handle g : ℕ)
    → ((x : GattConnection) → connections handle ≡ some x → x.generation ≢ g)
    → Owner connections g
    → Owner (remove_key handle connections) g
remove-Owner connections handle g n (h, d, e, f) = elim (Bool-cases (nat_beq handle h)) [
  | inl q ↦
      let same : connections handle ≡ connections h = ap connections (ground (arith, q)) in
      absurd (n d (same ∙ e) f)
  | inr q ↦ (h, d, ground (arith, e, q), f)
]

-- An event that a live connection may have leaves all lives as they are.
pub use-Lives :
    (connections : HashMap ℕ GattConnection) (events : List ServerEvent) (counter h : ℕ)
    (c d : GattConnection) (e : ServerEvent)
    → connections h ≡ some d
    → d.generation ≡ c.generation
    → ((g : ℕ) (l : Life) → meet g l e ≡ (if c.generation == g then use_it l else l))
    → Lives connections events counter
    → Lives connections (events ++ e ∷ []) counter
use-Lives connections events counter h c d e f same kind v =
    let kept : (g : ℕ) → life g unknown (events ++ e ∷ []) ≡ life g unknown events = λ g.
      life-snoc g unknown events e
      ∙ kind g (life g unknown events)
      ∙ ground (arith, v.current h d f, same) in
    record {
      current = λ k x i. kept x.generation ∙ v.current k x i;
      ahead = λ g l. kept g ∙ v.ahead g l;
      whole = λ g b. v.whole g (sym (kept g) ∙ b);
      only = λ g a. v.only g (sym (kept g) ∙ a);
      unique = v.unique;
    }

pub connect-Lives :
    (connections : HashMap ℕ GattConnection) (events : List ServerEvent) (counter handle : ℕ)
    (c : GattConnection)
    → connections handle ≡ none
    → c.generation ≡ counter
    → Unique (insert_key handle c connections) (counter + 1)
    → Lives connections events counter
    → Lives (insert_key handle c connections) (events ++ connected c ∷ []) (counter + 1)
connect-Lives connections events counter handle c free new u v =
    let now : (g : ℕ)
        → life g unknown (events ++ connected c ∷ [])
          ≡ (if counter == g then alive else life g unknown events) =
      λ g.
        life-snoc g unknown events (connected c)
        ∙ ground (arith, new, v.ahead counter (omega arith)) in
    record {
      current = λ k d i. now d.generation ∙ ground (arith, i, new, v.current k d);
      ahead = λ g l. now g ∙ ground (arith, l, v.ahead g (omega (arith, l)));
      whole = λ g b. v.whole g (ground (arith, now g, b));
      only = λ g a. elim (Bool-cases (nat_beq counter g)) [
        | inl q ↦ (handle, c, ground arith, ground (arith, q, new))
        | inr q ↦
            insert-Owner connections handle g c (λ x i. absurd (ground (arith, free, i)))
              (v.only g (ground (arith, now g, a, q)))
      ];
      unique = u;
    }

pub disconnect-Lives :
    (connections : HashMap ℕ GattConnection) (events : List ServerEvent) (counter handle : ℕ)
    (found : Option GattConnection)
    → connections handle ≡ found
    → Unique (remove_key handle connections) counter
    → Lives connections events counter
    → Lives (remove_key handle connections) (events ++ farewell found) counter
disconnect-Lives connections events counter handle none e u v = rw (append-nil events) (record {
  current = λ k d i. v.current k d (ground (arith, i));
  ahead = v.ahead;
  whole = v.whole;
  only =
      λ g a. remove-Owner connections handle g (λ x i. absurd (ground (arith, e, i))) (v.only g a);
  unique = u;
})
disconnect-Lives connections events counter handle (some x) e u v =
    let now : (g : ℕ)
        → life g unknown (events ++ disconnected x ∷ [])
          ≡ (if x.generation == g then gone else life g unknown events) =
      λ g. life-snoc g unknown events (disconnected x) ∙ ground (arith, v.current handle x e) in
    record {
      current = λ k d i.
          let live : connections k ≡ some d = ground (arith, i) in
          let n : nat_beq handle k ≡ false = ground (arith, i) in
          let other = same_generation connections counter handle k x d v.unique e live ∙ n in
          now d.generation ∙ ground (arith, other, v.current k d live);
      ahead = λ g l. now g ∙ ground (arith, l, v.ahead g l, v.unique.below handle x e);
      whole = λ g b. v.whole g (ground (arith, now g, b));
      only = λ g a.
          let n : nat_beq x.generation g ≡ false = ground (arith, now g, a) in
          remove-Owner connections handle g (λ y i. ground (arith, e, i, n))
            (v.only g (ground (arith, now g, a, n)));
      unique = u;
    }

-- A connection of the same generation in the place of one keeps all lives.
pub replace-Lives :
    (connections : HashMap ℕ GattConnection) (events : List ServerEvent) (counter handle : ℕ)
    (c x : GattConnection)
    → connections handle ≡ some x
    → x.generation ≡ c.generation
    → Unique (insert_key handle c connections) counter
    → Lives connections events counter
    → Lives (insert_key handle c connections) events counter
replace-Lives connections events counter handle c x e f u v = record {
  current = λ k d i. elim (Bool-cases (nat_beq handle k)) [
    | inl q ↦ let same : d ≡ c = ground (arith, i, q) in rw (same, ← f) (v.current handle x e)
    | inr q ↦ v.current k d (ground (arith, i, q))
  ];
  ahead = v.ahead;
  whole = v.whole;
  only = λ g a. insert-Owner connections handle g c (λ y i. ground (arith, e, i, f)) (v.only g a);
  unique = u;
}
