-- ===== src/Services/Referrals/Codes.antt =====
-- The texts of referral codes: `generateReferralCode` and `normalizeReferralCode` of
-- src/lib/services/referrals.ts. A text is the list of its code units. The random bytes are a
-- parameter, one list for each call of `random`; so is what `trim` and `toUpperCase` make of a text.
use mella_dashboard.Base.{
  ℕ, suc, ◌+◌, ◌-◌, ◌%◌, ◌≤◌, ◌≡◌, ◌⊎◌, ltb, leb, ◌==◌, Bool, true, false, ◌&&◌, ◌||◌, not, Option,
  none, some, List, [], ◌∷◌, ◌++◌, length, All, if◌then◌else◌, arith, refl, sym, ap, ◌∙◌,
  Bool-cases, inl, inr,
}
use mathlib.Core.Option.{some-injective}

abbrev pub code_length : ℕ
code_length = 8

-- `REFERRAL_CODE_ALPHABET`: 23456789ABCDEFGHJKMNPQRSTUVWXYZ.
unfoldable pub alphabet : ℕ → ℕ
alphabet i =
    if ltb i 8
    then 50 + i
    else if ltb i 16
    then 57 + i
    else if ltb i 18
    then 58 + i
    else if ltb i 20
    then 59 + i
    else 60 + i

-- The greatest multiple of the alphabet's 31 letters that a byte can reach.
abbrev pub byte_limit : ℕ
byte_limit = 256 - 256 % 31

abbrev is_kept : ℕ → Bool
is_kept byte = not (leb byte_limit byte)

abbrev with_byte : ℕ → List ℕ → List ℕ
with_byte byte out = if is_kept byte then out ++ alphabet (byte % 31) ∷ [] else out

abbrev is_full : List ℕ → Bool
is_full out = leb code_length (length out)

-- The inner loop: the bytes of one call, until the code is full.
unfoldable pub take_bytes : List ℕ → List ℕ → List ℕ
take_bytes [] out = out
take_bytes (byte ∷ bytes) out =
    let rest = take_bytes bytes (with_byte byte out) in
    if is_full (with_byte byte out) then with_byte byte out else rest

-- The outer loop, over the results of the calls; none when these are used up before the code is full.
unfoldable pub fill_code : List (List ℕ) → List ℕ → Option (List ℕ)
fill_code [] out = if is_full out then some out else none
fill_code (bytes ∷ calls) out =
    let rest = fill_code calls (take_bytes bytes out) in if is_full out then some out else rest

unfoldable pub generate_referral_code : List (List ℕ) → Option (List ℕ)
generate_referral_code calls = fill_code calls []

-- One place of `REFERRAL_CODE_PATTERN`.
abbrev pub is_code_letter : ℕ → Bool
is_code_letter c =
    leb 50 c && leb c 57
    || leb 65 c && leb c 72
    || c == 74
    || c == 75
    || c == 77
    || c == 78
    || leb 80 c && leb c 90

unfoldable pub all_letters : List ℕ → Bool
all_letters [] = true
all_letters (c ∷ cs) = is_code_letter c && all_letters cs

-- `normalizeReferralCode`; `clean` is `trim` followed by `toUpperCase`.
unfoldable pub normalize_referral_code : (List ℕ → List ℕ) → List ℕ → Option (List ℕ)
normalize_referral_code clean raw =
    let code = clean raw in
    if length code == code_length && all_letters code then some code else none

-- A digit or a capital letter, which `trim` and `toUpperCase` leave alone.
abbrev pub IsPlain : ℕ → Type 0
IsPlain c = (48 ≤ c × c ≤ 57) ⊎ (65 ≤ c × c ≤ 90)

abbrev pub KeepsPlain : (List ℕ → List ℕ) → Type 0
KeepsPlain clean = (text : List ℕ) → All IsPlain text → clean text ≡ text

-- What the loops keep.
record IsPartial (out : List ℕ) : Type 0 where
  short : length out ≤ code_length
  letters : all_letters out ≡ true

letter : (i : ℕ) → is_code_letter (alphabet (i % 31)) ≡ true
unfolding alphabet
letter i = ground arith

letters-append :
    (out : List ℕ) (c : ℕ)
    → all_letters out ≡ true
    → is_code_letter c ≡ true
    → all_letters (out ++ c ∷ []) ≡ true
unfolding all_letters
letters-append [] c h k = ground arith
letters-append (o ∷ os) c h k = ground (arith, letters-append os c)

length-snoc : (out : List ℕ) (c : ℕ) → length (out ++ c ∷ []) ≡ suc (length out)
length-snoc [] c = refl
length-snoc (o ∷ os) c = ap suc (length-snoc os c)

with_byte-IsPartial :
    (byte : ℕ) (out : List ℕ) → IsPartial out → is_full out ≡ false → IsPartial (with_byte byte out)
with_byte-IsPartial byte out p f = elim (Bool-cases (is_kept byte)) [
  | inl k ↦ rw k (record {
    short = ground (arith, length-snoc out (alphabet (byte % 31)));
    letters = letters-append out (alphabet (byte % 31)) p.letters (letter byte);
  })
  | inr k ↦ rw k p
]

take_bytes-IsPartial :
    (bytes out : List ℕ) → IsPartial out → is_full out ≡ false → IsPartial (take_bytes bytes out)
unfolding take_bytes
take_bytes-IsPartial [] out p f = p
take_bytes-IsPartial (b ∷ bs) out p f =
    let q = with_byte-IsPartial b out p f in
    elim (Bool-cases (is_full (with_byte b out))) [
      | inl e ↦ rw e q
      | inr e ↦ rw e (take_bytes-IsPartial bs (with_byte b out) q e)
    ]

fill_code-lem :
    (calls : List (List ℕ)) (out code : List ℕ)
    → IsPartial out
    → fill_code calls out ≡ some code
    → IsPartial code × (is_full code ≡ true)
unfolding fill_code
fill_code-lem [] out code p h = elim (Bool-cases (is_full out)) [
  | inl e ↦ let same : out ≡ code = some-injective _ _ (sym (rw e refl) ∙ h) in rw (sym same) (p, e)
  | inr e ↦ let clash : none ≡ some code = sym (rw e refl) ∙ h in cc
]
fill_code-lem (bytes ∷ calls) out code p h = elim (Bool-cases (is_full out)) [
  | inl e ↦ let same : out ≡ code = some-injective _ _ (sym (rw e refl) ∙ h) in rw (sym same) (p, e)
  | inr e ↦
      fill_code-lem calls (take_bytes bytes out) code (take_bytes-IsPartial bytes out p e)
        (sym (rw e refl) ∙ h)
]

letters-IsPlain : (code : List ℕ) → all_letters code ≡ true → All IsPlain code
unfolding all_letters
letters-IsPlain [] h = tt
letters-IsPlain (c ∷ cs) h = (ground arith, letters-IsPlain cs (ground arith))

-- The bytes of a call that are not rejected, and of all calls.
unfoldable pub kept : List ℕ → ℕ
kept [] = 0
kept (b ∷ bs) = (if leb byte_limit b then 0 else 1) + kept bs

unfoldable pub all_kept : List (List ℕ) → ℕ
all_kept [] = 0
all_kept (bytes ∷ calls) = kept bytes + all_kept calls

take_bytes-length :
    (bytes out : List ℕ)
    → (code_length ≤ length (take_bytes bytes out))
      ⊎ (length out + kept bytes ≤ length (take_bytes bytes out))
unfolding take_bytes kept
take_bytes-length [] out = inr (omega arith)
take_bytes-length (b ∷ bs) out =
    ground (arith, take_bytes-length bs (with_byte b out), length-snoc out (alphabet (b % 31)))

fill_code-done :
    (calls : List (List ℕ)) (out : List ℕ)
    → code_length ≤ length out + all_kept calls
    → (code : List ℕ) × (fill_code calls out ≡ some code)
unfolding fill_code all_kept
fill_code-done [] out h = (out, ground arith)
fill_code-done (bytes ∷ calls) out h = elim (Bool-cases (is_full out)) [
  | inl e ↦ (out, rw e refl)
  | inr e ↦
      let (code, done) =
        fill_code-done calls (take_bytes bytes out) (ground (arith, take_bytes-length bytes out)) in
      (code, rw e done)
]

generated-normal :
    (clean : List ℕ → List ℕ) (calls : List (List ℕ)) (code : List ℕ)
    → KeepsPlain clean
    → fill_code calls [] ≡ some code
    → normalize_referral_code clean code ≡ some code
unfolding normalize_referral_code all_letters
generated-normal clean calls code keeps h =
    let start : IsPartial [] = record { short = omega arith; letters = refl } in
    let (p, full) = fill_code-lem calls [] code start h in
    let eight : (length code == code_length) ≡ true = ground (arith, p.short) in
    rw (keeps code (letters-IsPlain code p.letters)) (rw eight (rw p.letters refl))

-- A code is generated as soon as eight random bytes in all have not been rejected, in whatever calls
-- they come; and `normalizeReferralCode` accepts it as it stands, where trimming and upper-casing leave
-- digits and capital letters alone.
pub generate-normalize :
    (clean : List ℕ → List ℕ) (calls : List (List ℕ))
    → KeepsPlain clean
    → 8 ≤ all_kept calls
    → (code : List ℕ) × (generate_referral_code calls ≡ some code)
      × (normalize_referral_code clean code ≡ some code)
unfolding generate_referral_code
generate-normalize clean calls keeps h =
    let (code, done) = fill_code-done calls [] (omega arith) in
    (code, done, generated-normal clean calls code keeps done)
