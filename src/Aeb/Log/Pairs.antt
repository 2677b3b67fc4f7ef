-- ===== src/Aeb/Log/Pairs.antt =====
-- parse_aeb_log.py: the losses, where each row has both numbers or neither.
use wireless_boot_entropy_ze.Base.{◌≡◌, refl, ap, ◌∙◌, List, [], ◌∷◌, All}
use wireless_boot_entropy_ze.Base.Int.{ℤ, ◌-ℤ◌}
use wireless_boot_entropy_ze.Python.Result.{Result, ok, err}
use wireless_boot_entropy_ze.Python.Text.{codes}
use wireless_boot_entropy_ze.Aeb.ResultLine.{Fields}
use wireless_boot_entropy_ze.Aeb.Log.{int_of, keep_ok, numeric, at_least_zero, losses, packet_loss}

-- The loss of one row that has both numbers.
abbrev pub row_loss : Result ℤ → Result ℤ → List ℤ → List ℤ
row_loss (ok expected) (ok seen) rest = at_least_zero (expected -ℤ seen) ∷ rest
row_loss _ _ rest = rest

unfoldable pub row_losses : List Fields → List ℤ
row_losses [] = []
row_losses (row ∷ rows) =
    row_loss (int_of (codes "packets_expected") row) (int_of (codes "packets_seen") row)
      (row_losses rows)

-- Both are numbers, or neither is.
abbrev pub BothOrNeither : Result ℤ → Result ℤ → Type 0
BothOrNeither (ok expected) (ok seen) = Unit
BothOrNeither (err e) (err f) = Unit
BothOrNeither _ _ = ⊥

abbrev pub IsPaired : Fields → Type 0
IsPaired row =
    BothOrNeither (int_of (codes "packets_expected") row) (int_of (codes "packets_seen") row)

one_row :
    (expected seen : Result ℤ) (more rest : List ℤ)
    → BothOrNeither expected seen
    → losses (keep_ok expected more) (keep_ok seen rest) ≡ row_loss expected seen (losses more rest)
one_row (ok e) (ok s) more rest h = refl
one_row (err e) (err f) more rest h = refl
one_row (ok e) (err f) more rest h = absurd h
one_row (err e) (ok s) more rest h = absurd h

-- Where each row has both numbers or neither, the losses are those of the rows that have both, in order.
pub packet_loss-rows : (rows : List Fields) → All IsPaired rows → packet_loss rows ≡ row_losses rows
unfolding packet_loss numeric row_losses
packet_loss-rows [] h = refl
packet_loss-rows (row ∷ rows) (paired, h) =
    one_row (int_of (codes "packets_expected") row) (int_of (codes "packets_seen") row)
      (numeric rows (codes "packets_expected")) (numeric rows (codes "packets_seen")) paired
    ∙ ap (row_loss (int_of (codes "packets_expected") row) (int_of (codes "packets_seen") row))
        (packet_loss-rows rows h)
