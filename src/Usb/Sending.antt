-- ===== src/Usb/Sending.antt =====
-- `send` of btstack-nusb/src/lib.rs, and what it has sent.
use btstack_gatt_rs.Types.{acl_out_timeout, short_acl_out, unsupported_packet_type}
use btstack_gatt_rs.Prelude.{
  if◌then◌else◌, not, ℕ, ◌≡◌, ◌↔◌, inl, inr, List, Option, none, some, Result, ok, err, arith,
  length, refl, Result-cases, ◌==◌, nat_eq,
}
use btstack_gatt_rs.Types.{Error}

-- A bulk transfer that has completed: what was submitted, and how much of it went out.
pub record OutCompletion : Type 0 where
  pub status : Result (Unit {0}) Error
  pub buffer : List ℕ
  pub actual_len : ℕ

-- The calls of nusb in `send`: a control transfer with its result, the submission of a bulk transfer, and
-- the next completion on that endpoint, if one comes within two seconds.
pub record UsbIo : Type 1 where
  pub T : Type 0
  pub control_out : List ℕ → T → T × Result (Unit {0}) Error
  pub submit_out : List ℕ → T → T
  pub wait_next_complete : T → T × Option OutCompletion

unfoldable pub acl_result : List ℕ → Option OutCompletion → Result (Unit {0}) Error
acl_result packet none = err acl_out_timeout
acl_result packet (some c) = elim c.status [
  | err e ↦ err e
  | ok u ↦ if not (c.actual_len == length packet) then err short_acl_out else ok tt
]

module _ (io : UsbIo) where
  unfoldable pub send_packet : ℕ → List ℕ → io.T → io.T × Result (Unit {0}) Error
  unfolding acl_result
  send_packet kind packet t =
      if kind == 1
      then io.control_out packet t
      else if kind == 2
      then (let (t', completed) = io.wait_next_complete (io.submit_out packet t) in
          (t', acl_result packet completed))
      else (t, err unsupported_packet_type)

-- Complete: without an error, and with so many bytes.
abbrev pub IsComplete : ℕ → OutCompletion → Type 0
IsComplete n c = (c.status ≡ ok tt) × (c.actual_len ≡ n)

pub acl_result_iff :
    (packet : List ℕ) (r : Option OutCompletion)
    → (acl_result packet r ≡ ok tt)
      ↔ ((c : OutCompletion) × (r ≡ some c) × IsComplete (length packet) c)
unfolding acl_result
acl_result_iff packet none = ((λ h. cc), λ (c, h, k). cc)
acl_result_iff packet (some c) = (
  (λ h. elim (Result-cases c.status) [
    | inl (u, e) ↦ (c, refl, (e, ground (arith, e, h)))
    | inr (x, e) ↦ absurd (ground (arith, e, h))
  ]),
  λ (d, h, (e, l)). ground (arith, h, e, l),
)
