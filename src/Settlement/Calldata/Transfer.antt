-- ===== src/Settlement/Calldata/Transfer.antt =====
-- internal/settlement/calldata.go and internal/policy/policy.go: the calldata that settlement packs, its
-- authorization in wire form, and the agreement of the two constructions.
use facilitator.Base.{
  ℕ, ◌*◌, ◌/◌, ◌≡◌, refl, ap, ◌∙◌, ◌<◌, ◌^◌, Option, none, some, List, Text, length, Bool, true,
  false, ◌&&◌, ltb, ◌==◌, if◌then◌else◌, ℤ, pos, arith, format_int, set_string,
  parse_int-format_int,
}
use mathlib.Core.Path.{fun_ext}
use facilitator.Settlement.Work.{Authorization}
use facilitator.Settlement.Calldata
use facilitator.Settlement.Calldata.{decode_string, trim_prefix}
use facilitator.Signing.Policy
use facilitator.Signing.Policy.{
  Encoder, TransferArguments, WireAuthorization, checked, or_refused, is_positive, is_negative,
  exceeds,
}

-- Unix of a time in nanoseconds: the whole seconds.
unfoldable pub unix : ℕ → ℕ
unix time = time / 10 ^ 9

-- Authorization.Wire.
unfoldable pub wire : Authorization → WireAuthorization
unfolding format_int unix
wire a = record {
  from = a.from;
  to = a.to;
  value = a.value;
  valid_after = format_int (unix a.valid_after);
  valid_before = format_int (unix a.valid_before);
  nonce = a.nonce;
  signature = a.signature;
}

unfoldable pub decode_fixed32 : Text → Option (List ℕ)
unfolding decode_string trim_prefix
decode_fixed32 value = elim (decode_string (trim_prefix value)) [
  | none ↦ none
  | some raw ↦ if length raw == 32 then some raw else none
]

-- TransferWithAuthorizationData of internal/settlement; any error is `none`.
unfoldable pub transfer_with_authorization_data : Encoder → Authorization → Option (List ℕ)
unfolding set_string unix decode_fixed32 Calldata.split_signature
transfer_with_authorization_data encoder a =
    if encoder.is_hex_address a.from && encoder.is_hex_address a.to
    then or_refused (checked is_positive (set_string a.value)) (λ value.
      or_refused (decode_fixed32 a.nonce) (λ nonce.
        or_refused (Calldata.split_signature a.signature) (λ (v, r, s). encoder.pack (record {
          from = encoder.hex_to_address a.from;
          to = encoder.hex_to_address a.to;
          value = value;
          valid_after = pos (unix a.valid_after);
          valid_before = pos (unix a.valid_before);
          nonce = nonce;
          v = v;
          r = r;
          s = s;
        }))))
    else none

window_checked :
    {B : Type 0} (a b : ℕ) (next : ℤ → Option B)
    → or_refused (checked (λ n. exceeds n (pos a)) (some (pos b))) next
      ≡ (if ltb a b then next (pos b) else none)
unfolding exceeds
window_checked a b next = ground arith

-- A test that does not depend on the value may be made before it is read.
or_refused-if :
    {A B : Type 0} (o : Option A) (b : Bool) (next : A → Option B)
    → or_refused o (λ x. if b then next x else none) ≡ (if b then or_refused o next else none)
or_refused-if none true next = refl
or_refused-if none false next = refl
or_refused-if (some x) b next = refl

if-swap :
    {B : Type 0} (a b : Bool) (o : Option B)
    → (if a then (if b then o else none) else none) ≡ (if b then (if a then o else none) else none)
if-swap true b o = refl
if-swap false true o = refl
if-swap false false o = refl

-- For an authorization whose times fit an int64 in seconds, the signing boundary packs from the wire form
-- exactly the calldata that settlement packs, or both refuse, if the window of time is not empty in whole
-- seconds; where it is empty, the boundary refuses.
pub wire-transfer_with_authorization_data :
    (encoder : Encoder) (a : Authorization)
    → a.valid_after < 2 ^ 63 * 10 ^ 9
    → a.valid_before < 2 ^ 63 * 10 ^ 9
    → Policy.transfer_with_authorization_data encoder (wire a) ≡ (
        if ltb (a.valid_after / 10 ^ 9) (a.valid_before / 10 ^ 9)
        then transfer_with_authorization_data encoder a
        else none)
unfolding unix transfer_with_authorization_data Policy.transfer_with_authorization_data wire
    Policy.decode_fixed32 decode_fixed32 Policy.split_signature Calldata.split_signature
    Policy.recovery_id Calldata.normal_recovery
wire-transfer_with_authorization_data encoder a fits_after fits_before =
    ap (λ x. if encoder.is_hex_address a.from && encoder.is_hex_address a.to then x else none)
      (ap (or_refused (checked is_positive (set_string a.value))) (
          fun_ext (λ value. rw (parse_int-format_int (unix a.valid_after) (omega arith)) (
            rw (parse_int-format_int (unix a.valid_before) (omega arith))
              (window_checked (unix a.valid_after) (unix a.valid_before) _))))
        ∙ or_refused-if (checked is_positive (set_string a.value))
            (ltb (unix a.valid_after) (unix a.valid_before)) _)
    ∙ if-swap (encoder.is_hex_address a.from && encoder.is_hex_address a.to)
        (ltb (unix a.valid_after) (unix a.valid_before)) _
