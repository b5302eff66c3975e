-- ===== src/Kernel/Negotiation.antt =====
-- `Kernel::hello`: the protocol version that a client and the Kernel agree on.
use madre.Base.{
  ℕ, ◌<◌, ◌^◌, stoi-IsU32, ◌≡◌, inl, inr, refl, true, not, ◌&&◌, ◌||◌, Text, codes, lt_i32, le_i32,
  stoi, to_string, to_string_i32, decimal, if◌then◌else◌, ok, arith, Bool-cases,
}
use madre.Protocol.{Frame}
use madre.Protocol.MessageType
use madre.Protocol.Frames.{metadata_value}
use madre.Kernel.{response, error_response}
use madre.Kernel.Handlers.{hello, with_field, max_i32, min_i32}

-- The answer for a client that knows the versions from `low` to `high`.
abbrev pub greeting : Frame → ℕ → ℕ → Frame
greeting request low high =
    if le_i32 low 2 && le_i32 2 high
    then with_field (codes "kernel_protocol_version") (codes "2")
        (response MessageType.hello_response request)
    else error_response request (codes "VERSION_MISMATCH")
        (codes "no compatible Kernel protocol/API version")

no_overlap :
    (low high : ℕ)
    → (lt_i32 high low || lt_i32 (min_i32 high 2) (max_i32 low 2))
      ≡ not (le_i32 low 2 && le_i32 2 high)
no_overlap low high = ground arith

negotiated : (high : ℕ) → high < 2 ^ 32 → le_i32 2 high ≡ true → min_i32 high 2 ≡ 2
negotiated high b h = ground arith

two : to_string_i32 2 ≡ codes "2"
unfolding to_string decimal codes
two = refl

-- A client whose range holds version 2, as signed numbers, is greeted with it; any other client whose
-- two fields are numbers is told that no version is compatible.
pub hello_lem :
    (request : Frame) (low_text high_text : Text) (low high : ℕ)
    → metadata_value request (codes "min_kernel_protocol_version") ≡ ok low_text
    → stoi low_text ≡ ok low
    → metadata_value request (codes "max_kernel_protocol_version") ≡ ok high_text
    → stoi high_text ≡ ok high
    → hello request ≡ ok (greeting request low high)
unfolding hello
hello_lem request low_text high_text low high e1 e2 e3 e4 =
    elim (Bool-cases (le_i32 low 2 && le_i32 2 high)) [
      | inl shared ↦
          let version : min_i32 high 2 ≡ 2 =
            negotiated high (stoi-IsU32 high_text high e4) (ground arith) in
          rw (e1, e2, hello)
            (rw (e3, e4) (rw (no_overlap low high, shared) (rw (version, two) refl)))
      | inr apart ↦ rw (e1, e2, hello) (rw (e3, e4) (rw (no_overlap low high, apart) refl))
    ]
