-- ===== src/Access/Facility.antt =====
-- `decodeFacilityCard` and `populateDecimalCard` of httpd/html/javascript/gate-control.js, on the
-- numbers that `Number` reads from the form: `none` is what is no whole number from 0 up.
use Prim.Native.Nat.{◌%◌, ◌/◌}
use uhppoted_httpd.Prelude.{
  ℕ, ◌+◌, ◌*◌, ◌≤◌, ◌&&◌, ◌≡◌, Option, none, some, arith, ltb, leb, if◌then◌else◌,
}

pub record FacilityCard : Type 0 where
  pub facility_code : ℕ
  pub card_number : ℕ

unfoldable pub decode_facility_card : Option ℕ → Option FacilityCard
decode_facility_card none = none
decode_facility_card (some number) =
    if ltb 25599999 number
    then none
    else some (record { facility_code = number / 100000; card_number = number % 100000 })

-- the number that is written to the form; `none` where the field is left as it is
unfoldable pub populate_decimal_card : Option ℕ → Option ℕ → Option ℕ
populate_decimal_card (some fc) (some cn) =
    if leb fc 255 && leb cn 99999 then some (fc * 100000 + cn) else none
populate_decimal_card _ _ = none

-- The two numbers that make up a credential's number are read back from it, if they are in range.
pub decode-populate :
    (fc cn : ℕ)
    → fc ≤ 255
    → cn ≤ 99999
    → decode_facility_card (populate_decimal_card (some fc) (some cn))
      ≡ some (record { facility_code = fc; card_number = cn })
unfolding decode_facility_card populate_decimal_card
decode-populate fc cn h k = ground (arith, h, k)

-- A credential's number that is shown as two numbers is made again from them.
pub populate-decode :
    (number : ℕ) (card : FacilityCard)
    → decode_facility_card (some number) ≡ some card
    → populate_decimal_card (some card.facility_code) (some card.card_number) ≡ some number
unfolding decode_facility_card populate_decimal_card
populate-decode number card e = ground (arith, e)
