-- ===== src/Python/Utf8.antt =====
-- `bytes.decode("utf-8", errors="replace")`: every maximal part that starts no valid sequence
-- becomes one U+FFFD.
use wireless_boot_entropy_ze.Base.{
  ℕ, zero, suc, ◌+◌, ◌-◌, ◌*◌, ◌<◌, ◌≡◌, refl, ◌&&◌, [], ◌∷◌, ltb, leb, ◌==◌, if◌then◌else◌, All,
  ap, lt→ltb,
}
use wireless_boot_entropy_ze.Python.Struct.{Bytes}
use wireless_boot_entropy_ze.Python.Text.{Text}

-- The sequence being read: how many bytes are still to come, the range of the next one, and the
-- bits so far. `need` is 0 between sequences.
pub record Pending : Type 0 where
  pub need : ℕ
  pub lower : ℕ
  pub upper : ℕ
  pub bits : ℕ

abbrev pub idle : Pending
idle = record { need = 0; lower = 0x80; upper = 0xBF; bits = 0 }

abbrev replacement : ℕ
replacement = 0xFFFD

abbrev expect : ℕ → ℕ → ℕ → ℕ → Pending
expect n lo hi b = record { need = n; lower = lo; upper = hi; bits = b }

-- A byte at the start of a sequence: what it emits, and the sequence it opens.
lead : ℕ → Text × Pending
lead b =
    if ltb b 0x80
    then (b ∷ [], idle)
    else if ltb b 0xC2
    then (replacement ∷ [], idle)
    else if ltb b 0xE0
    then ([], expect 1 0x80 0xBF (b - 0xC0))
    else if b == 0xE0
    then ([], expect 2 0xA0 0xBF 0)
    else if b == 0xED
    then ([], expect 2 0x80 0x9F 13)
    else if ltb b 0xF0
    then ([], expect 2 0x80 0xBF (b - 0xE0))
    else if b == 0xF0
    then ([], expect 3 0x90 0xBF 0)
    else if ltb b 0xF4
    then ([], expect 3 0x80 0xBF (b - 0xF0))
    else if b == 0xF4
    then ([], expect 3 0x80 0x8F 4)
    else (replacement ∷ [], idle)

-- A byte inside a sequence that needs `n + 1` more.
continue : ℕ → Pending → ℕ → Text × Pending
unfolding lead
continue n p b =
    let bits = p.bits * 64 + (b - 0x80) in
    let again : Text × Pending = lead b in
    if leb p.lower b && leb b p.upper
    then (if n == 0 then (bits ∷ [], idle) else ([], expect n 0x80 0xBF bits))
    else (replacement ∷ again.0, again.1)

feed : Pending → ℕ → ℕ → Text × Pending
unfolding lead continue
feed p zero b = lead b
feed p (suc n) b = continue n p b

prepend : Text → Text → Text
prepend [] s = s
prepend (c ∷ cs) s = c ∷ prepend cs s

decode_from : Pending → Bytes → Text
unfolding feed prepend
decode_from p [] = if p.need == 0 then [] else replacement ∷ []
decode_from p (b ∷ bs) = let (out, p') = feed p p.need b in prepend out (decode_from p' bs)

unfoldable pub decode : Bytes → Text
unfolding decode_from
decode bs = decode_from idle bs

-- ASCII bytes are their own code points.
pub decode_ascii : (bs : Bytes) → All (λ b. b < 0x80) bs → decode bs ≡ bs
unfolding decode
decode_ascii [] h = refl
decode_ascii (b ∷ bs) (p, h) = rw (lt→ltb _ _ p) (ap (◌∷◌ b) (decode_ascii bs h))

-- A valid two-byte sequence; a cut one; a stray byte; an overlong one.
decode_two : decode (0xC3 ∷ 0xA9 ∷ b'a' ∷ []) ≡ 0xE9 ∷ b'a' ∷ []
unfolding decode
decode_two = refl

decode_bad :
    decode (0xE2 ∷ 0x82 ∷ b'a' ∷ 0xFF ∷ 0xE0 ∷ 0x80 ∷ [])
    ≡ replacement ∷ b'a' ∷ replacement ∷ replacement ∷ replacement ∷ []
unfolding decode
decode_bad = refl
