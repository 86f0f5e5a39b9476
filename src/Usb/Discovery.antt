-- ===== src/Usb/Discovery.antt =====
-- Which endpoints are used (`from_device` of btstack-nusb/src/lib.rs).
use btstack_gatt_rs.Prelude.{
  ℕ, ◌≡◌, ◌↔◌, refl, Bool, true, false, List, [], ◌∷◌, Option, none, some, ok, err, arith,
  if◌then◌else◌, find, not, Option-cases, Result-cases, ap, sym, ◌∙◌, inl, inr, ◌==◌, nat_eq,
}
use btstack_gatt_rs.Types.{missing_setting}
use btstack_gatt_rs.Gatt.{has_bits}
use btstack_gatt_rs.Usb.{
  TransferType, interrupt, bulk, other_transfer, Endpoint, Setting, Found, Pipes, note_endpoint,
  discover, pipes, choose, Device, from_device,
}

-- What the three endpoints are, each by itself.
abbrev pub is_event : Endpoint → Bool
is_event e = elim e.transfer_type [ interrupt ↦ has_bits e.address 128 | _ ↦ false ]

abbrev pub is_input : Endpoint → Bool
is_input e = elim e.transfer_type [ bulk ↦ has_bits e.address 128 | _ ↦ false ]

abbrev pub is_output : Endpoint → Bool
is_output e = elim e.transfer_type [ bulk ↦ not (has_bits e.address 128) | _ ↦ false ]

-- The address of the last endpoint that passes a test, or what there was before.
unfoldable pub last_with : (Endpoint → Bool) → List Endpoint → Option ℕ → Option ℕ
last_with p [] before = before
last_with p (e ∷ es) before = last_with p es (if p e then some e.address else before)

note_endpoint_lem :
    (t : TransferType) (inward : Bool) (address : ℕ) (f : Found)
    → note_endpoint t inward address f ≡ record {
      event = if elim t [ interrupt ↦ inward | _ ↦ false ] then some address else f.event;
      input = if elim t [ bulk ↦ inward | _ ↦ false ] then some address else f.input;
      output = if elim t [ bulk ↦ not inward | _ ↦ false ] then some address else f.output;
    }
unfolding note_endpoint
note_endpoint_lem interrupt true address f = refl
note_endpoint_lem interrupt false address f = refl
note_endpoint_lem bulk true address f = refl
note_endpoint_lem bulk false address f = refl
note_endpoint_lem other_transfer inward address f = refl

discover_lem :
    (es : List Endpoint) (f : Found)
    → discover es f ≡ record {
      event = last_with is_event es f.event;
      input = last_with is_input es f.input;
      output = last_with is_output es f.output;
    }
unfolding discover last_with
discover_lem [] f = refl
discover_lem (e ∷ es) f =
    discover_lem es (note_endpoint e.transfer_type (has_bits e.address 128) e.address f)
    ∙ ap
        (λ (g : Found).
          let r : Found = record {
            event = last_with is_event es g.event;
            input = last_with is_input es g.input;
            output = last_with is_output es g.output;
          } in
          r)
        (note_endpoint_lem e.transfer_type (has_bits e.address 128) e.address f)

abbrev nothing : Found
nothing = record { event = none; input = none; output = none }

pipes_iff :
    (f : Found) (p : Pipes)
    → (pipes f ≡ ok p)
      ↔ ((f.event ≡ some p.event) × (f.input ≡ some p.input) × (f.output ≡ some p.output))
unfolding pipes
pipes_iff f p = ((λ h. ground (arith, h)), λ (a, b, c). ground (arith, a, b, c))

choose_of :
    (settings : List Setting) (s : Setting)
    → find (λ t. t.alternate_setting == 0) settings ≡ some s
    → choose settings ≡ pipes (discover s.endpoints nothing)
unfolding choose
choose_of settings s e = rw e refl

choose_missing :
    (settings : List Setting)
    → find (λ t. t.alternate_setting == 0) settings ≡ none
    → choose settings ≡ err missing_setting
unfolding choose
choose_missing settings e = rw e refl

-- The endpoints are chosen exactly if there is the alternate setting 0 and the first setting of that
-- number has an interrupt endpoint and a bulk endpoint towards the host and a bulk endpoint away from it.
pub choose_lem :
    (settings : List Setting) (p : Pipes)
    → (choose settings ≡ ok p) ↔ (
        (s : Setting) × (find (λ t. t.alternate_setting == 0) settings ≡ some s)
        × (last_with is_event s.endpoints none ≡ some p.event)
        × (last_with is_input s.endpoints none ≡ some p.input)
        × (last_with is_output s.endpoints none ≡ some p.output))
choose_lem settings p = (
  (λ h. elim (Option-cases (find (λ t. t.alternate_setting == 0) settings)) [
    | inl e ↦ absurd (ground (arith, choose_missing settings e, h))
    | inr (s, e) ↦
        let found =
          (pipes_iff (discover s.endpoints nothing) p).0 (sym (choose_of settings s e) ∙ h) in
        let d = discover_lem s.endpoints nothing in
        (
          s,
          e,
          sym (ap (λ (f : Found). f.event) d) ∙ found.0,
          sym (ap (λ (f : Found). f.input) d) ∙ found.1,
          sym (ap (λ (f : Found). f.output) d) ∙ found.2,
        )
  ]),
  λ (s, e, a, b, c).
      let d = discover_lem s.endpoints nothing in
      choose_of settings s e
      ∙ (pipes_iff (discover s.endpoints nothing) p).1 (
        ap (λ (f : Found). f.event) d ∙ a,
        ap (λ (f : Found). f.input) d ∙ b,
        ap (λ (f : Found). f.output) d ∙ c,
      ),
)

-- The transport opens on a device exactly if interface 0 is claimed and has the alternate setting 0, the
-- first setting of that number has an interrupt endpoint and a bulk endpoint towards the host and a bulk
-- endpoint away from it, the last of each opens, and the receiving thread starts; these three are the
-- endpoints that it uses.
pub from_device_lem :
    (d : Device) (p : Pipes)
    → (from_device d ≡ ok p) ↔ (
        (settings : List Setting) × (s : Setting) × (d.claim ≡ ok settings)
        × (find (λ t. t.alternate_setting == 0) settings ≡ some s)
        × (last_with is_event s.endpoints none ≡ some p.event)
        × (last_with is_input s.endpoints none ≡ some p.input)
        × (last_with is_output s.endpoints none ≡ some p.output)
        × (d.open_event p.event ≡ ok tt)
        × (d.open_input p.input ≡ ok tt)
        × (d.open_output p.output ≡ ok tt)
        × (d.spawn ≡ ok tt))
unfolding from_device
from_device_lem d p = (
  (λ h. elim (Result-cases d.claim) [
    | inr (x, c) ↦ absurd (ground (arith, c, h))
    | inl (settings, c) ↦ elim (Result-cases (choose settings)) [
      | inr (x, e) ↦ absurd (ground (arith, c, e, h))
      | inl (q, e) ↦ elim (Result-cases (d.open_event q.event)) [
        | inr (x, a) ↦ absurd (ground (arith, c, e, a, h))
        | inl (u, a) ↦ elim (Result-cases (d.open_input q.input)) [
          | inr (x, b) ↦ absurd (ground (arith, c, e, a, b, h))
          | inl (u', b) ↦ elim (Result-cases (d.open_output q.output)) [
            | inr (x, o) ↦ absurd (ground (arith, c, e, a, b, o, h))
            | inl (u'', o) ↦ elim (Result-cases d.spawn) [
              | inr (x, t) ↦ absurd (ground (arith, c, e, a, b, o, t, h))
              | inl (z, t) ↦
                  let same : q ≡ p = ground (arith, c, e, a, b, o, t, h) in
                  let (s, f, g, i, k) = (choose_lem settings p).0 (rw (← same) e) in
                  (settings, s, c, f, g, i, k, rw (← same) a, rw (← same) b, rw (← same) o, t)
            ]
          ]
        ]
      ]
    ]
  ]),
  λ (settings, s, c, f, e, i, o, a, b, g, t).
      let chosen = (choose_lem settings p).1 (s, f, e, i, o) in
      ground (arith, c, chosen, a, b, g, t),
)
