-- ===== src/Submissions/Chains.antt =====
-- What a chain of the service's steps leaves, by its steps.
use model_lib.Base.{◌≡◌, refl}
use model_lib.Submissions.{Answer, ok, err, SubmissionError, World, Act, resume, ◌>>=◌}

-- `P` of the first step's errors, and of what follows on its answers.
pub bind_rule :
    {A B : Type 0} (P : Answer B × World → Type 0) (m : Act A) (k : A → Act B) (w : World)
    → ((e : SubmissionError) → (m w).0 ≡ err e → P (err e, (m w).1))
    → ((a : A) → (m w).0 ≡ ok a → P (k a (m w).1))
    → P ((m >>= k) w)
bind_rule {A} P m k w on_error on_answer = step (m w).0 on_error on_answer
  where
    step :
        (x : Answer A)
        → ((e : SubmissionError) → x ≡ err e → P (err e, (m w).1))
        → ((a : A) → x ≡ ok a → P (k a (m w).1))
        → P (resume x (m w).1 k)
    step (ok a) f g = g a refl
    step (err e) f g = f e refl
