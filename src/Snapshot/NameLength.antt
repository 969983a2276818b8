-- ===== src/Snapshot/NameLength.antt =====
-- No name that is tried is longer than the 63 bytes that Kubernetes allows.
use Prim.Native.String.len
use Prim.Native.String.slice
use Prim.Native.Nat.{Ordering, compare}
use Prim.Native.Char.{Char, len_utf8}
use native.Mathlib.Omega.{compare-lt, compare-eq}
use Prim.Native.String.{fits, ◌++◌ as text_append, len, slice}
use text.Mathlib.TextPositions.{len-append}
use integration_service.Base.{
  Bool-cases, List, Option-cases, String, [], arith, inl, inr, length, ltb, ltb→lt, refl, some, suc,
  zero, ℕ, ◌%◌, ◌+◌, ◌-◌, ◌<◌, ◌==◌, ◌∷◌, ◌≡◌, ◌≤◌,
}
use integration_service.Base.Text.{len-show_nat_one, len-show_nat_three, len-show_nat_two, show_nat}
use integration_service.Snapshot.Naming.{
  World, create_attempts, create_snapshot_with_collision_handling,
  generate_snapshot_name_with_timestamp, three_digits, truncated,
}
use integration_service.Snapshot.Attempts.{
  answer_cases, attempt-eq_of_created, attempt-eq_of_last, attempt-eq_of_no_suffix,
  attempt-eq_of_other, attempt-eq_of_suffix,
}

len-fits :
    (o : Ordering) (c : Char) (t : String) (b : ℕ)
    → compare (len_utf8 c) b ≡ o
    → len t ≤ b - len_utf8 c
    → len (fits o c t) ≤ b
len-fits Ordering.lt c t b order short =
    let room : len_utf8 c < b = compare-lt (len_utf8 c) b order in rw (len.cons c t) (omega arith)
len-fits Ordering.eq c t b order short =
    let exact : len_utf8 c ≡ b = compare-eq (len_utf8 c) b order in rw (len.cons c t) (omega arith)
len-fits Ordering.gt c t b order short = rw len.nil (omega arith)

len-slice : (s : String) (b : ℕ) → len (slice s 0 b) ≤ b
len-slice String.[] b = rw (slice.nil 0 b, len.nil) (omega arith)
len-slice (String.◌∷◌ c s) b = rw (slice.cons-zero c s b) (
    len-fits (compare (len_utf8 c) b) c (slice s 0 (b - len_utf8 c)) b refl
      (len-slice s (b - len_utf8 c)))

len-truncated : (s : String) (limit : ℕ) → len (truncated s limit) ≤ limit
len-truncated s limit = elim (Bool-cases (ltb limit (len s))) [
  | inl long ↦ rw long (len-slice s limit)
  | inr short ↦ rw short (ground arith)
]

len-three_digits : (n : ℕ) → n < 1000 → len (three_digits n) ≤ 3
unfolding three_digits
len-three_digits n small = elim (Bool-cases (ltb n 10)) [
  | inl one ↦
      rw (one, len-append "00" (show_nat n)) (omega (arith, len-show_nat_one n (ltb→lt n 10 one)))
  | inr more ↦ elim (Bool-cases (ltb n 100)) [
    | inl two ↦
        rw (more, two, len-append "0" (show_nat n))
          (omega (arith, len-show_nat_two n (ltb→lt n 100 two)))
    | inr three ↦ rw (more, three) (len-show_nat_three n small)
  ]
]

len-name :
    (prefix time millis : String)
    → len (text_append prefix (text_append "-" (text_append time (text_append "-" millis))))
      ≡ len prefix + (1 + (len time + (1 + len millis)))
len-name prefix time millis =
    rw
      (
        len-append prefix (text_append "-" (text_append time (text_append "-" millis))),
        len-append "-" (text_append time (text_append "-" millis)),
        len-append time (text_append "-" millis),
        len-append "-" millis,
      )
      refl

len-generate_snapshot_name_with_timestamp :
    (format : ℕ → String) (prefix : String) (unix_milli : ℕ) (suffix : String)
    → len (format unix_milli) ≤ 15
    → len suffix ≤ 2
    → len (generate_snapshot_name_with_timestamp format prefix unix_milli suffix) ≤ 63
unfolding generate_snapshot_name_with_timestamp
len-generate_snapshot_name_with_timestamp format prefix unix_milli suffix time short =
    elim (Bool-cases (suffix == "")) [
      | inl blank ↦ rw blank (
          rw (len-name (truncated prefix 43) (format unix_milli) (three_digits (unix_milli % 1000)))
            (omega
              (arith, len-truncated prefix 43, len-three_digits (unix_milli % 1000) (omega arith))))
      | inr given ↦ rw given (
          rw
            (
              len-append
                  (text_append (truncated prefix 40) (
                    text_append "-" (
                      text_append (format unix_milli)
                        (text_append "-" (three_digits (unix_milli % 1000))))))
                  (text_append "-" suffix),
              len-append "-" suffix,
              len-name (truncated prefix 40) (format unix_milli) (three_digits (unix_milli % 1000)),
            )
            (omega
              (arith, len-truncated prefix 40, len-three_digits (unix_milli % 1000) (omega arith))))
    ]

abbrev pub AllFit : List String → Type 0
AllFit [] = Unit
AllFit (name ∷ l) = (len name ≤ 63) × AllFit l

-- time.Format fills a layout of fixed width, and a suffix has two characters.
abbrev pub HasWidths : World → Type 0
HasWidths world =
    ((t : ℕ) → len (world.format t) ≤ 15)
    × ((attempt : ℕ) (s : String) → world.suffix attempt ≡ some s → len s ≤ 2)

create_attempts-AllFit :
    (world : World) (group : String) (left attempt : ℕ) (name : String)
    → HasWidths world
    → len name ≤ 63
    → AllFit (create_attempts world group left attempt name).0
      × (length (create_attempts world group left attempt name).0 ≤ left)
unfolding create_attempts
create_attempts-AllFit world group zero attempt name widths short = (tt, omega arith)
create_attempts-AllFit world group (suc left) attempt name widths short =
    elim (answer_cases (world.answer attempt name)) [
      | inl done ↦
          rw (attempt-eq_of_created world group left attempt name done) ((short, tt), omega arith)
      | inr (inl other) ↦
          rw (attempt-eq_of_other world group left attempt name other) ((short, tt), omega arith)
      | inr (inr taken) ↦ elim (Bool-cases (ltb attempt 4)) [
        | inr last ↦
            rw (attempt-eq_of_last world group left attempt name taken last)
              ((short, tt), omega arith)
        | inl more ↦ elim (Option-cases (world.suffix attempt)) [
          | inl absent ↦
              rw (attempt-eq_of_no_suffix world group left attempt name taken more absent)
                ((short, tt), omega arith)
          | inr (suffix, given) ↦
              let next =
                generate_snapshot_name_with_timestamp world.format group (world.unix_milli attempt)
                  suffix in
              let fits =
                len-generate_snapshot_name_with_timestamp world.format group
                  (world.unix_milli attempt) suffix (widths.0 (world.unix_milli attempt))
                  (widths.1 attempt suffix given) in
              let rest = create_attempts-AllFit world group left (attempt + 1) next widths fits in
              rw (attempt-eq_of_suffix world group left attempt name suffix taken more given)
                ((short, rest.0), omega (arith, rest.1))
        ]
      ]
    ]

-- At most five names are tried, none of more than 63 bytes, if the first name, the formatted time and
-- the suffixes have the widths that they should.
pub create_snapshot_with_collision_handling-AllFit :
    (world : World) (group name : String)
    → HasWidths world
    → len name ≤ 63
    → AllFit (create_snapshot_with_collision_handling world group name).0
      × (length (create_snapshot_with_collision_handling world group name).0 ≤ 5)
unfolding create_snapshot_with_collision_handling
create_snapshot_with_collision_handling-AllFit world group name widths short =
    create_attempts-AllFit world group 5 0 name widths short
