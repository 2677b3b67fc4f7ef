-- ===== src/Aeb/Jitter/RoundTrip.antt =====
-- The two jitter streams hold the same measurements, and each can be read back.
use wireless_boot_entropy_ze.Base.{
  ℕ, ◌-◌, ◌*◌, ◌^◌, ◌<◌, ◌≡◌, refl, ap, ◌∙◌, Bool, true, false, ◌&&◌, List, [], ◌∷◌, ◌++◌, arith,
  ltb, if◌then◌else◌, length, length-append, All, All-append, All-take, Bool-cases, inl, inr,
  nat_eq, ◌==◌,
}
use wireless_boot_entropy_ze.Base.Int.{ℤ, pos, negsuc, ◌-ℤ◌}
use wireless_boot_entropy_ze.Python.Result.{ok, err, struct_error, >>=-eq-ok, ok-injective}
use wireless_boot_entropy_ze.Python.Struct.{Bytes, AreBytes, le_bytes, of_le_bytes}
use wireless_boot_entropy_ze.Python.Struct.Laws.{length-le_bytes, pack_le_pos}
use wireless_boot_entropy_ze.Python.Dict.{Dict, lookup, get_or}
use wireless_boot_entropy_ze.Aeb.Jitter.{
  unpack_u32le, values_of_chunks, jitter_values, pack_jitter_delta_u32le, pack_s32le,
  pack_jitter_residual_s32le,
}

abbrev pub AreWords : List ℕ → Type 0
AreWords = All (λ v. v < 2 ^ 32)

-- The bytes of the values, one word after another.
abbrev pub delta_bytes : List ℕ → Bytes
delta_bytes [] = []
delta_bytes (v ∷ vs) = le_bytes 4 v ++ delta_bytes vs

pack-delta_bytes : (vs : List ℕ) → AreWords vs → pack_jitter_delta_u32le vs ≡ ok (delta_bytes vs)
unfolding pack_jitter_delta_u32le
pack-delta_bytes [] h = refl
pack-delta_bytes (v ∷ vs) (p, h) = rw (pack_le_pos 4 v p, pack-delta_bytes vs h)

unpack-word :
    (v : ℕ) (rest : Bytes)
    → v < 2 ^ 32
    → unpack_u32le (le_bytes 4 v ++ rest) ≡ v ∷ unpack_u32le rest
unfolding unpack_u32le le_bytes of_le_bytes
unpack-word v rest h = ap (λ w. w ∷ unpack_u32le rest) (omega arith)

unpack-delta_bytes : (vs : List ℕ) → AreWords vs → unpack_u32le (delta_bytes vs) ≡ vs
unpack-delta_bytes [] h = unfold unpack_u32le in refl
unpack-delta_bytes (v ∷ vs) (p, h) =
    unpack-word v (delta_bytes vs) p ∙ ap (◌∷◌ v) (unpack-delta_bytes vs h)

length-delta_bytes : (vs : List ℕ) → length (delta_bytes vs) ≡ 4 * length vs
length-delta_bytes [] = refl
length-delta_bytes (v ∷ vs) = omega (
  arith,
  length-append (le_bytes 4 v) (delta_bytes vs),
  length-le_bytes 4 v,
  length-delta_bytes vs,
)

-- Every list of 32-bit measurements packs to four bytes each, and is unpacked from them.
pub unpack-pack_jitter_delta :
    (values : List ℕ)
    → AreWords values
    → (packed : Bytes) × (pack_jitter_delta_u32le values ≡ ok packed)
      × (length packed ≡ 4 * length values)
      × (unpack_u32le packed ≡ values)
unpack-pack_jitter_delta vs h =
    (delta_bytes vs, pack-delta_bytes vs h, length-delta_bytes vs, unpack-delta_bytes vs h)

unpack_u32le-AreWords : (bs : Bytes) → AreBytes bs → AreWords (unpack_u32le bs)
unfolding unpack_u32le
unpack_u32le-AreWords (a ∷ b ∷ c ∷ d ∷ rest) (p, (q, (r, (s, h)))) =
    (unfold of_le_bytes in omega arith, unpack_u32le-AreWords rest h)
unpack_u32le-AreWords _ h = tt

abbrev pub AreChunks : Dict ℕ Bytes → Type 0
AreChunks = All (λ c. AreBytes c.1)

get_or-AreBytes : (k : ℕ) (d : Dict ℕ Bytes) → AreChunks d → AreBytes (get_or k [] d)
unfolding get_or lookup
get_or-AreBytes k [] h = tt
get_or-AreBytes k ((j, v) ∷ d) (p, h) = elim (Bool-cases (j == k)) [
  | inl e ↦ rw (get_or, e) p
  | inr e ↦ rw (get_or, e) (get_or-AreBytes k d h)
]

values_of_chunks-AreWords :
    (indices : List ℕ) (d : Dict ℕ Bytes) → AreChunks d → AreWords (values_of_chunks indices d)
unfolding values_of_chunks
values_of_chunks-AreWords [] d h = tt
values_of_chunks-AreWords (i ∷ is) d h =
    All-append (λ v. v < 2 ^ 32) _ _
      (unpack_u32le-AreWords _ (All-take _ _ _ (get_or-AreBytes i d h)))
      (values_of_chunks-AreWords is d h)

-- The measurements read from received chunks, which are bytes, are below 2^32.
pub jitter_values-AreWords : (d : Dict ℕ Bytes) → AreChunks d → AreWords (jitter_values d)
unfolding jitter_values
jitter_values-AreWords d h = values_of_chunks-AreWords _ d h

-- The integer that a 32-bit word stands for in two's complement.
abbrev pub signed32 : ℕ → ℤ
signed32 w = if ltb w (2 ^ 31) then pos w else negsuc (2 ^ 32 - 1 - w)

abbrev pub residuals : List ℕ → ℤ → List ℤ
residuals [] interval_us = []
residuals (v ∷ vs) interval_us = (pos v -ℤ interval_us) ∷ residuals vs interval_us

abbrev pub signed_words : List ℕ → List ℤ
signed_words [] = []
signed_words (w ∷ ws) = signed32 w ∷ signed_words ws

pack_s32le-word :
    (r : ℤ) {word : Bytes}
    → pack_s32le r ≡ ok word
    → (w : ℕ) × (word ≡ le_bytes 4 w) × (w < 2 ^ 32) × (signed32 w ≡ r)
unfolding pack_s32le
pack_s32le-word (pos n) h = (n, ground arith, ground arith, ground arith)
pack_s32le-word (negsuc n) h = (2 ^ 32 - 1 - n, ground arith, ground arith, ground arith)

-- Where the residuals pack, they are read back from the packed bytes, as signed words.
pub unpack-pack_jitter_residual :
    (values : List ℕ) (interval_us : ℤ) {packed : Bytes}
    → pack_jitter_residual_s32le values interval_us ≡ ok packed
    → signed_words (unpack_u32le packed) ≡ residuals values interval_us
unfolding pack_jitter_residual_s32le unpack_u32le
unpack-pack_jitter_residual [] i h = let empty : [] ≡ _ = ok-injective h in rw (← empty)
unpack-pack_jitter_residual (v ∷ vs) i h =
    let (word, packed_word, after) = >>=-eq-ok (pack_s32le (pos v -ℤ i)) _ h in
    let (rest, packed_rest, joined) = >>=-eq-ok (pack_jitter_residual_s32le vs i) _ after in
    let (w, same, fits, value) = pack_s32le-word (pos v -ℤ i) packed_word in
    let whole : word ++ rest ≡ _ = ok-injective joined in
    rw (← whole, same, unpack-word w rest fits, value, unpack-pack_jitter_residual vs i packed_rest)

-- A residual that is a signed 32-bit number.
abbrev pub fits_s32 : ℤ → Bool
fits_s32 (pos n) = ltb n (2 ^ 31)
fits_s32 (negsuc n) = ltb n (2 ^ 31)

abbrev pub all_fit_s32 : List ℤ → Bool
all_fit_s32 [] = true
all_fit_s32 (r ∷ rs) = fits_s32 r && all_fit_s32 rs

pack_s32le-fits :
    (r : ℤ)
    → (fits_s32 r ≡ true → (word : Bytes) × (pack_s32le r ≡ ok word))
      × (fits_s32 r ≡ false → pack_s32le r ≡ err struct_error)
unfolding pack_s32le
pack_s32le-fits (pos n) = (λ h. (le_bytes 4 n, rw h), λ h. rw h)
pack_s32le-fits (negsuc n) = (λ h. (le_bytes 4 (2 ^ 32 - 1 - n), rw h), λ h. rw h)

-- Packing the residuals succeeds where each of them is a signed 32-bit number, and raises
-- `struct.error` where one is not.
pub pack_jitter_residual_exact :
    (values : List ℕ) (interval_us : ℤ)
    → (all_fit_s32 (residuals values interval_us) ≡ true
        → (packed : Bytes) × (pack_jitter_residual_s32le values interval_us ≡ ok packed))
      × (all_fit_s32 (residuals values interval_us) ≡ false
          → pack_jitter_residual_s32le values interval_us ≡ err struct_error)
unfolding pack_jitter_residual_s32le
pack_jitter_residual_exact [] i = (λ h. ([], refl), λ h. cc)
pack_jitter_residual_exact (v ∷ vs) i =
    let (fine, large) = pack_s32le-fits (pos v -ℤ i) in
    let (rest_fine, rest_large) = pack_jitter_residual_exact vs i in
    elim (Bool-cases (fits_s32 (pos v -ℤ i))) [
      | inl f ↦
          let (word, w) = fine f in
          rw (f, w)
            (λ h. let (rest, r) = rest_fine h in (word ++ rest, rw r), λ h. rw (rest_large h))
      | inr f ↦ rw (f, large f) (λ h. cc, λ h. refl)
    ]
