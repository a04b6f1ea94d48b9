-- ===== src/Manifest/Cron.antt =====
-- manifest/cron.go. A bit mask is the function from bit positions to bits; `uint32(m)` and the like
-- cut it off at the width. An `int` that the loop over a range computes is a 64-bit pattern with its
-- wrap-around. White space is that of ASCII.
use moduless.Base.{
  ℕ, zero, suc, ◌+◌, ◌*◌, ◌-◌, ◌%◌, Bool, true, false, ◌&&◌, ◌||◌, negate, Option, none, some, List,
  [], ◌∷◌, ◌++◌, if◌then◌else◌, ◌==◌, ltb, leb, Bytes, bytes, ◌=?◌, is_empty, contains, split, ℤ,
  pos, negsuc, ltb_ℤ, length,
}
use moduless.Manifest.Filters.{is_space}
pub mod Masks
mod Tests

abbrev pub Mask : Type 0
Mask = ℕ → Bool

abbrev pub no_bits : Mask
no_bits w = false

-- `mask |= 1 << v` on a `uint64`: a shift by 64 or more gives 0.
abbrev pub set_bit : ℕ → Mask → Mask
set_bit v m w = m w || (w == v) && ltb v 64

-- `a | b`.
abbrev pub join : Mask → Mask → Mask
join a b w = a w || b w

-- The conversion to a narrower unsigned type.
abbrev pub cut_to : ℕ → Mask → Mask
cut_to width m w = m w && ltb w width

abbrev is_digit : ℕ → Bool
is_digit c = leb b'0' c && leb c b'9'

-- The digits of a number, most significant first; `none` for any other byte.
digits_from : ℕ → Bytes → Option ℕ
digits_from n [] = some n
digits_from n (c ∷ s) =
    let rest = digits_from (n * 10 + (c - b'0')) s in if is_digit c then rest else none

abbrev digits : Bytes → Option ℕ
digits [] = none
digits (c ∷ s) = digits_from 0 (c ∷ s)

-- The range of `int`.
abbrev fits_pos : ℕ → Option ℤ
fits_pos n = if ltb n 9223372036854775808 then some (pos n) else none

abbrev fits_neg : ℕ → Option ℤ
fits_neg n =
    if n == 0
    then some (pos 0)
    else if leb n 9223372036854775808
    then some (negsuc (n - 1))
    else none

unsigned : Bytes → Option ℤ
unfolding digits_from
unsigned s = elim (digits s) [ none ↦ none | some n ↦ fits_pos n ]

-- `strconv.Atoi`.
unfoldable pub atoi : Bytes → Option ℤ
unfolding unsigned digits_from
atoi [] = none
atoi (c ∷ s) =
    if c == b'+'
    then unsigned s
    else if c == b'-'
    then elim (digits s) [ none ↦ none | some n ↦ fits_neg n ]
    else unsigned (c ∷ s)

-- `strings.Cut(s, string(sep))`, for one byte.
unfoldable pub cut : Bytes → ℕ → Bytes × Bytes × Bool
cut [] sep = ([], [], false)
cut (c ∷ s) sep =
    let (before, after, found) = cut s sep in
    if c == sep then ([], s, true) else (c ∷ before, after, found)

-- `strings.Fields`, with the word read so far.
unfoldable pub fields_from : Bytes → Bytes → List Bytes
fields_from word [] = if is_empty word then [] else word ∷ []
fields_from word (c ∷ s) =
    let closed = fields_from [] s in
    let longer = fields_from (word ++ c ∷ []) s in
    if is_space c then (if is_empty word then closed else word ∷ closed) else longer

pub data CronError : Type 0 where
  wrong_field_count bad_step bad_range_start bad_range_end backwards bad_value out_of_range
        endless :
      CronError

pub data Parsed {ℓ} (A : Type ℓ) : Type ℓ where
  ok : A → Parsed A
  err : CronError → Parsed A

abbrev pub wrap : ℕ → ℕ
wrap n = n % 18446744073709551616

-- `v <= hi` between `int` patterns, for an `hi` that is not negative.
abbrev pub is_within : ℕ → ℕ → Bool
is_within v hi = leb 9223372036854775808 v || leb v hi

-- `for v := lo; v <= hi; v += step { mask |= 1 << uint(v) }`, on fuel.
unfoldable pub mask_loop : ℕ → ℕ → ℕ → ℕ → Mask → Option Mask
mask_loop zero hi step v m = none
mask_loop (suc fuel) hi step v m =
    let rest = mask_loop fuel hi step (wrap (v + step)) (set_bit v m) in
    if is_within v hi then rest else some m

abbrev pub loop_fuel : ℕ
loop_fuel = 200

-- The end of `parsePart`: the test of the range, and the loop.
unfoldable pub range_mask : ℤ → ℤ → ℕ → ℕ → ℕ → Parsed Mask
unfolding mask_loop
range_mask (pos lo) (pos hi) step min max =
    if ltb lo min || ltb max hi
    then err out_of_range
    else elim (mask_loop loop_fuel hi step lo no_bits) [ none ↦ err endless | some m ↦ ok m ]
range_mask (pos lo) (negsuc hi) step min max = if ltb lo min then err out_of_range else ok no_bits
range_mask (negsuc lo) hi step min max = err out_of_range

-- The `switch` of `parsePart`: the bounds of the range.
unfoldable pub parse_bounds : Bytes → ℕ → ℕ → Parsed (ℤ × ℤ)
unfolding ◌=?◌ contains cut atoi
parse_bounds part min max =
    let (lo_str, hi_str, found) = cut part b'-' in
    if part =? (b'*' ∷ [])
    then ok (pos min, pos max)
    else if contains part (b'-' ∷ [])
    then elim (atoi lo_str) [
      | none ↦ err bad_range_start
      | some lo ↦ elim (atoi hi_str) [
        | none ↦ err bad_range_end
        | some hi ↦ if ltb_ℤ hi lo then err backwards else ok (lo, hi)
      ]
    ]
    else elim (atoi part) [ none ↦ err bad_value | some n ↦ ok (n, n) ]

-- The step of `parsePart`: 1 if there is none.
unfoldable pub parse_step : Bytes → Bool → Option ℕ
unfolding atoi
parse_step step_str false = some 1
parse_step step_str true = elim (atoi step_str) [
  | none ↦ none
  | some (pos zero) ↦ none
  | some (pos (suc n)) ↦ some (suc n)
  | some (negsuc n) ↦ none
]

-- `parsePart`.
unfoldable pub parse_part : Bytes → ℕ → ℕ → Parsed Mask
unfolding cut parse_step parse_bounds range_mask
parse_part part min max =
    let (base, step_str, has_step) = cut part b'/' in
    elim (parse_step step_str has_step) [
      | none ↦ err bad_step
      | some step ↦ elim (parse_bounds (if has_step then base else part) min max) [
        | err e ↦ err e
        | ok (lo, hi) ↦ range_mask lo hi step min max
      ]
    ]

-- The loop of `parseField` over its parts.
unfoldable pub parse_parts : List Bytes → ℕ → ℕ → Mask → Parsed Mask
unfolding parse_part
parse_parts [] min max m = ok m
parse_parts (part ∷ parts) min max m = elim (parse_part part min max) [
  | err e ↦ err e
  | ok p ↦ parse_parts parts min max (join m p)
]

-- `fullMask`.
abbrev pub full_mask : ℕ → ℕ → Mask
full_mask min max w = leb min w && leb w max

-- `parseField`: the mask, and whether it was restricted.
unfoldable pub parse_field : Bytes → ℕ → ℕ → Parsed (Mask × Bool)
unfolding ◌=?◌ split parse_parts
parse_field field min max =
    if field =? (b'*' ∷ [])
    then ok (full_mask min max, false)
    else elim (parse_parts (split field b',') min max no_bits) [
      | err e ↦ err e
      | ok m ↦ ok (m, true)
    ]

pub record Schedule : Type 0 where
  pub minute : Mask
  pub hour : Mask
  pub dom : Mask
  pub month : Mask
  pub dow : Mask
  pub dom_restricted : Bool
  pub dow_restricted : Bool

-- `ParseSchedule` behind the split into fields.
unfoldable pub parse_fields : List Bytes → Parsed Schedule
unfolding parse_field
parse_fields (f0 ∷ f1 ∷ f2 ∷ f3 ∷ f4 ∷ []) = elim (parse_field f0 0 59) [
  | err e ↦ err e
  | ok (minute, r0) ↦ elim (parse_field f1 0 23) [
    | err e ↦ err e
    | ok (hour, r1) ↦ elim (parse_field f2 1 31) [
      | err e ↦ err e
      | ok (dom, dom_restricted) ↦ elim (parse_field f3 1 12) [
        | err e ↦ err e
        | ok (month, r3) ↦ elim (parse_field f4 0 6) [
          | err e ↦ err e
          | ok (dow, dow_restricted) ↦ ok (record {
            minute = minute;
            hour = cut_to 32 hour;
            dom = cut_to 32 dom;
            month = cut_to 16 month;
            dow = cut_to 8 dow;
            dom_restricted = dom_restricted;
            dow_restricted = dow_restricted;
          })
        ]
      ]
    ]
  ]
]
parse_fields _ = err wrong_field_count

-- `ParseSchedule`.
unfoldable pub parse_schedule : Bytes → Parsed Schedule
unfolding fields_from parse_fields
parse_schedule expr = parse_fields (fields_from [] expr)

-- The parts of a time that `Matches` reads.
pub record Time : Type 0 where
  pub minute : ℕ
  pub hour : ℕ
  pub day : ℕ
  pub month : ℕ
  pub weekday : ℕ

-- `Matches`.
unfoldable pub schedule_matches : Schedule → Time → Bool
schedule_matches s t =
    let dom_ok = s.dom t.day in
    let dow_ok = s.dow t.weekday in
    if negate (s.minute t.minute)
    then false
    else if negate (s.hour t.hour)
    then false
    else if negate (s.month t.month)
    then false
    else if s.dom_restricted && s.dow_restricted
    then dom_ok || dow_ok
    else dom_ok && dow_ok
