-- ===== src/Python/Division.antt =====
-- `n / d` of two integers: whether the quotient is a `float`. The quotient is rounded to the nearest,
-- and 2^1024 - 2^970 is half-way between the largest `float` and what would follow it.
use wireless_boot_entropy_ze.Base.{
  ℕ, suc, ◌-◌, ◌*◌, ◌^◌, ◌≡◌, refl, Bool, false, ltb, ◌==◌, if◌then◌else◌, if_keeps, inr,
}
use wireless_boot_entropy_ze.Base.Int.{ℤ, pos, negsuc}
use wireless_boot_entropy_ze.Python.Result.{
  Result, ok, err, overflow_error, zero_division_error, OkOrNumberError,
}

abbrev magnitude : ℤ → ℕ
magnitude (pos n) = n
magnitude (negsuc n) = suc n

unfoldable fits_float : ℕ → ℕ → Bool
fits_float n d = ltb n (d * (2 ^ 1024 - 2 ^ 970))

unfoldable pub true_div : ℤ → ℕ → Result (Unit {0})
unfolding fits_float
true_div n d =
    if d == 0
    then err zero_division_error
    else if fits_float (magnitude n) d
    then ok tt
    else err overflow_error

pub true_div-NumberError :
    (n : ℤ) (d : ℕ) → (d == 0) ≡ false → OkOrNumberError (λ u. Unit) (true_div n d)
unfolding true_div
true_div-NumberError n d positive =
    rw (true_div, positive)
      (if_keeps (OkOrNumberError (λ u. Unit)) (fits_float (magnitude n) d) (ok tt)
        (err overflow_error) tt (inr refl))

edges :
    (true_div (negsuc 6) 0 ≡ err zero_division_error)
    × (true_div (pos (2 ^ 1024 - 2 ^ 970 - 1)) 1 ≡ ok tt)
    × (true_div (negsuc (2 ^ 1024 - 2 ^ 970 - 1)) 1 ≡ err overflow_error)
unfolding true_div
edges = (refl, refl, refl)
