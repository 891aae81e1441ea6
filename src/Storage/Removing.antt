-- ===== src/Storage/Removing.antt =====
-- os.Remove of a temporary file: it is gone, or, where the removal fails, it is as it was.
use model_lib.Base.{
  ◌≡◌, ◌≢◌, refl, ap, Option, none, [], Bytes, str_eq_refl, str_eq_distinct, if_cases,
}
use model_lib.Storage.{Disk, put, asked, remove, fails, next_faults}

pub put-here : (k : Bytes) (c : Option Bytes) (d : Disk) → (put k c d).files k ≡ c
put-here k c d = rw (str_eq_refl k) refl

pub put-other :
    (j k : Bytes) (c : Option Bytes) (d : Disk) → j ≢ k → (put j c d).files k ≡ d.files k
put-other j k c d h = rw (str_eq_distinct j k h) refl

pub remove-gone : (path : Bytes) (d : Disk) → d.removals ≡ [] → (remove path d).files path ≡ none
remove-gone path d calm =
    if_cases (λ (e : Disk). e.files path ≡ none) (fails d.removals) (λ e. cc (e, ap fails calm))
      (λ _. put-here path none (asked d))

pub remove-other : (path k : Bytes) (d : Disk) → path ≢ k → (remove path d).files k ≡ d.files k
remove-other path k d other =
    if_cases (λ (e : Disk). e.files k ≡ d.files k) (fails d.removals) (λ _. refl)
      (λ _. put-other path k none (asked d) other)

pub remove-still : (path : Bytes) (d : Disk) → d.removals ≡ [] → (remove path d).removals ≡ []
remove-still path d calm =
    if_cases (λ (e : Disk). e.removals ≡ []) (fails d.removals) (λ _. ap next_faults calm)
      (λ _. ap next_faults calm)

pub remove-faults : (path : Bytes) (d : Disk) → (remove path d).faults ≡ d.faults
remove-faults path d =
    if_cases (λ (e : Disk). e.faults ≡ d.faults) (fails d.removals) (λ _. refl) (λ _. refl)
