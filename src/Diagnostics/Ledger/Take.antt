-- ===== src/Diagnostics/Ledger/Take.antt =====
-- A request that is taken out of the ledger is taken out of the totals.
use wirestead.Prelude.{ℕ, ◌≡◌, ◌∙◌, some}
use wirestead.Diagnostics.Accounting.{SendAccounting}
use wirestead.Diagnostics.Ledger.{Entry, Ledger, find, erase, update}
use wirestead.Diagnostics.Ledger.Refine.{erase-IsErased}
use wirestead.Diagnostics.Ledger.Weight.{erase-weight}
use wirestead.Diagnostics.Ledger.Conserve.{
  IsCounted, Lowers, erase-IsKept, update-weight, update-IsSame,
}
use wirestead.Diagnostics.Ledger.Tally.{
  counted-IsTallied, tallied-IsCounted, taken-IsTallied, update-IsLowered, kept_IsLowered,
}

-- Complete, discard and roll back: a request that is found is counted and erased.
pub erase-IsCounted :
    (l : Ledger) (id : ℕ) (e : Entry) (apply : SendAccounting → SendAccounting)
    → IsCounted l
    → find l id ≡ some e
    → Lowers e.bytes apply
    → IsCounted (erase (update l e apply) id e)
erase-IsCounted l id e apply h found lowers =
    let m = update l e apply in
    let s = update-IsSame l e apply h.valid in
    let at : find m id ≡ some e = s.same id ∙ found in
    tallied-IsCounted _ (erase-IsErased m id e s.valid at).valid (
      taken-IsTallied l _ e apply _ _ (counted-IsTallied l h)
        (kept_IsLowered l m _ e apply (update-IsLowered l e apply) (erase-IsKept m id e))
        (λ w. erase-weight w m id e s.valid at ∙ update-weight w l e apply) lowers)
