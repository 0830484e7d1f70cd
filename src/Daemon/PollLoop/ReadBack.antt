-- ===== src/Daemon/PollLoop/ReadBack.antt =====
-- Which checkpoints come back from the store as they were written.
use uxc.Base.{◌≢◌, ◌≡◌, refl, ap, Option, none, some}
use uxc.Json.{Value, null, bool, number, string, array, object}
use uxc.Poll.{Checkpoint, without_null, read_back}

-- No field holds a null, and each is read again as it was written.
abbrev pub IsKept : {F : Type 0} → (Value F → Value F) → Option (Value F) → Type 0
IsKept again none = Unit
IsKept again (some v) = (v ≢ null) × (again v ≡ v)

abbrev pub Lasts : {F : Type 0} → (Value F → Value F) → Checkpoint F → Type 0
Lasts again ck = IsKept again ck.cursor × IsKept again ck.watermark × IsKept again ck.tie_breaker

without_null-IsKept :
    {F : Type 0} (again : Value F → Value F) (o : Option (Value F))
    → IsKept again o
    → without_null again o ≡ o
without_null-IsKept again none h = refl
without_null-IsKept again (some null) h = absurd (h.0 refl)
without_null-IsKept again (some (bool b)) h = ap some h.1
without_null-IsKept again (some (number n)) h = ap some h.1
without_null-IsKept again (some (string s)) h = ap some h.1
without_null-IsKept again (some (array xs)) h = ap some h.1
without_null-IsKept again (some (object fs)) h = ap some h.1

pub read_back-Lasts :
    {F : Type 0} (again : Value F → Value F) (ck : Checkpoint F)
    → Lasts again ck
    → read_back again ck ≡ ck
unfolding read_back
read_back-Lasts again ck h =
    rw
      (
        without_null-IsKept again ck.cursor h.0,
        without_null-IsKept again ck.watermark h.1,
        without_null-IsKept again ck.tie_breaker h.2,
      )
      refl
