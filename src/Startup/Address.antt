-- ===== src/Startup/Address.antt =====
-- The address of the gRPC server.
use Prim.Native.String.{slice, ◌++◌ as append}
use text.Mathlib.TextPositions.{slice-append_left}
use challenge_service.Prelude.{
  String, ◌≡◌, ◌↔◌, refl, sym, ap, ◌∙◌, true, false, Bool-cases, inl, inr, ◌==◌, arith, eq_iff,
}
use challenge_service.Startup.{grpc_address}

-- The address begins with a colon.
abbrev pub HasColon : String → Type 0
HasColon addr = slice addr 0 1 ≡ ":"

append-HasColon : (port : String) → HasColon (append ":" port)
append-HasColon port = slice-append_left ":" port

HasColon-ne_empty : (addr : String) → HasColon addr → (addr == "") ≡ false
HasColon-ne_empty addr h = elim (Bool-cases (addr == "")) [
  | inl e ↦
      let wrong : ("" == ":") ≡ true =
        (eq_iff "" ":").1 (ap (λ a. slice a 0 1) (sym ((eq_iff addr "").0 e)) ∙ h) in
      cc
  | inr e ↦ e
]

grpc_address_colon : (addr : String) → HasColon addr → grpc_address addr ≡ addr
unfolding grpc_address
grpc_address_colon addr h =
    ground (arith, HasColon-ne_empty addr h, (eq_iff (slice addr 0 1) ":").1 h)

grpc_address-HasColon : (port : String) → HasColon (grpc_address port)
unfolding grpc_address
grpc_address-HasColon port = elim (Bool-cases (port == "")) [
  | inl e ↦ rw e refl
  | inr e ↦ elim (Bool-cases (slice port 0 1 == ":")) [
    | inl f ↦ rw (e, f) ((eq_iff _ _).0 f)
    | inr f ↦ rw (e, f) (append-HasColon port)
  ]
]

-- Whatever port is configured, the address that the gRPC server listens on begins with a colon; it is
-- the port itself exactly if that begins with one; and an address is not changed again.
pub grpc_address_lem :
    (port : String)
    → HasColon (grpc_address port)
      × (grpc_address port ≡ port ↔ HasColon port)
      × (grpc_address (grpc_address port) ≡ grpc_address port)
grpc_address_lem port =
    let colon = grpc_address-HasColon port in
    (
      colon,
      ((λ e. ap (λ a. slice a 0 1) (sym e) ∙ colon), grpc_address_colon port),
      grpc_address_colon (grpc_address port) colon,
    )
