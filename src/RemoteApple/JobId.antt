-- ===== src/RemoteApple/JobId.antt =====
-- The ids of the agent's jobs (src/lib.rs, module `remote_apple_protocol`).
use devicelane.Shared.{
  ℕ, zero, suc, String, ◌≡◌, ap, sym, ◌∙◌, print, push_str, read_decimal, read_decimal-print,
}

-- What is left of a text after so many characters.
abbrev after : ℕ → String → String
after zero s = s
after (suc n) String.[] = String.[]
after (suc n) (String.◌∷◌ c s) = after n s

-- `format!("apple-job-{}", n)`.
pub job_id : ℕ → String
job_id n = push_str "apple-job-" (print n)

pub job_id-injective : (n m : ℕ) → job_id n ≡ job_id m → n ≡ m
unfolding job_id push_str
job_id-injective n m h =
    sym (read_decimal-print n) ∙ ap (λ s. read_decimal 0 (after 10 s)) h ∙ read_decimal-print m
