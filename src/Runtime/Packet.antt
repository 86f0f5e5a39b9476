-- ===== src/Runtime/Packet.antt =====
-- `validate_packet` of btstack-core/src/runtime.rs: the length fields of incoming HCI packets.
use btstack_gatt_rs.Prelude.{
  ℕ, ◌+◌, ◌*◌, ◌≤◌, ◌<◌, ◌≡◌, ◌↔◌, inl, inr, List, [], ◌∷◌, Result, ok, err, ◌>>=◌, ◌&&◌, ◌||◌,
  if◌then◌else◌, leb, ltb, not, length, get_or, ◌==◌, nat_eq, arith, All, Bool-cases, subst, ◌%◌,
}
use btstack_gatt_rs.Types.{HciPacket, Error, invalid_packet_header, invalid_packet_length}

-- `u16::from_le_bytes`.
abbrev pub from_le_bytes : ℕ → ℕ → ℕ
from_le_bytes lo hi = lo + 256 * hi

unfoldable pub expected_length : HciPacket → Result ℕ Error
expected_length p =
    if p.kind == 4 && leb 2 (length p.payload)
    then ok (2 + get_or p.payload 1 0)
    else if p.kind == 2 && leb 4 (length p.payload)
    then ok (4 + from_le_bytes (get_or p.payload 2 0) (get_or p.payload 3 0))
    else err invalid_packet_header

unfoldable pub validate_packet : HciPacket → Result (Unit {0}) Error
unfolding expected_length
validate_packet p = do
  expected ← expected_length p
  if not (length p.payload == expected) || (p.kind == 2 && ltb 1028 expected)
      then err invalid_packet_length
      else ok tt

-- An event: its code, the length of its parameters and the parameters.
abbrev pub event_packet : ℕ → List ℕ → HciPacket
event_packet code parameters = record { kind = 4; payload = code ∷ length parameters ∷ parameters }

-- ACL data: the handle with its flags, the length in two bytes, and the data.
abbrev pub acl_packet : ℕ → ℕ → ℕ → ℕ → List ℕ → HciPacket
acl_packet b0 b1 lo hi content = record { kind = 2; payload = b0 ∷ b1 ∷ lo ∷ hi ∷ content }

-- The two shapes that the stack accepts, as they are built and not as they are checked.
pub data WellFramed (p : HciPacket) : Type 0 where
  event_frame : (code : ℕ) (parameters : List ℕ) → p ≡ event_packet code parameters → WellFramed p
  acl_frame :
      (b0 b1 lo hi : ℕ) (content : List ℕ)
      → p ≡ acl_packet b0 b1 lo hi content
      → length content ≡ from_le_bytes lo hi
      → length content ≤ 1024
      → WellFramed p

validate_packet_of : (p : HciPacket) → WellFramed p → validate_packet p ≡ ok tt
unfolding validate_packet
validate_packet_of p (event_frame code ps e) = rw e (ground arith)
validate_packet_of p (acl_frame b0 b1 lo hi content e f g) = rw e (ground arith)

-- Each payload that has the header's bytes is one of the shapes.
event_of_length :
    (k : ℕ) (bs : List ℕ)
    → k ≡ 4
    → 2 ≤ length bs
    → length bs ≡ 2 + get_or bs 1 0
    → WellFramed (record { kind = k; payload = bs })
event_of_length k [] e h g = absurd (omega arith)
event_of_length k (a ∷ []) e h g = absurd (omega arith)
event_of_length k (a ∷ b ∷ bs) e h g = event_frame a bs (ground arith)

acl_of_length :
    (k : ℕ) (bs : List ℕ)
    → k ≡ 2
    → 4 ≤ length bs
    → length bs ≡ 4 + from_le_bytes (get_or bs 2 0) (get_or bs 3 0)
    → length bs ≤ 1028
    → WellFramed (record { kind = k; payload = bs })
acl_of_length k [] e h g l = absurd (omega arith)
acl_of_length k (a ∷ []) e h g l = absurd (omega arith)
acl_of_length k (a ∷ b ∷ []) e h g l = absurd (omega arith)
acl_of_length k (a ∷ b ∷ c ∷ []) e h g l = absurd (omega arith)
acl_of_length k (a ∷ b ∷ c ∷ d ∷ bs) e h g l =
    acl_frame a b c d bs (ground arith) (omega arith) (omega arith)

validate_packet_inv :
    (k : ℕ) (bs : List ℕ)
    → validate_packet (record { kind = k; payload = bs }) ≡ ok tt
    → WellFramed (record { kind = k; payload = bs })
unfolding validate_packet
validate_packet_inv k bs h = elim (Bool-cases (k == 4 && leb 2 (length bs))) [
  | inl e ↦ event_of_length k bs (ground arith) (ground arith) (ground arith)
  | inr e ↦ elim (Bool-cases (k == 2 && leb 4 (length bs))) [
    | inl a ↦ acl_of_length k bs (ground arith) (ground arith) (ground arith) (ground arith)
    | inr a ↦ absurd (ground arith)
  ]
]

-- The check passes exactly the packets that are built as an event or as ACL data of at most 1024
-- bytes: every other kind, a cut header and a wrong length field are refused.
pub validate_packet-WellFramed : (p : HciPacket) → (validate_packet p ≡ ok tt) ↔ WellFramed p
validate_packet-WellFramed p = (validate_packet_inv p.kind p.payload, validate_packet_of p)

WellFramed-length :
    (p : HciPacket) → All (λ b. b < 256) p.payload → WellFramed p → length p.payload ≤ 1028
WellFramed-length p h (event_frame code ps e) =
    let below : All (λ b. b < 256) (code ∷ length ps ∷ ps) =
      subst (λ (q : HciPacket). All (λ b. b < 256) q.payload) e h in
    rw e (omega (arith, below.1.0))
WellFramed-length p h (acl_frame b0 b1 lo hi content e f g) = rw e (omega (arith, g))

-- A packet of bytes that passes is at most 1028 bytes long, so its length survives the cast to `u16`
-- with which it is handed to the stack.
pub validate_packet-length :
    (p : HciPacket)
    → All (λ b. b < 256) p.payload
    → validate_packet p ≡ ok tt
    → (length p.payload ≤ 1028) × (length p.payload % 65536 ≡ length p.payload)
validate_packet-length p h v =
    let l = WellFramed-length p h ((validate_packet-WellFramed p).0 v) in (l, omega (arith, l))
