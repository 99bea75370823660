-- ===== src/Xpto/Syslog.antt =====
-- include/xpto/syslog.hpp: the text that `syslogger` hands to `syslog`, from what the format makes of the
-- arguments. The prefix is left out.
use native.Mathlib.Decide.{dec_lt}
use ucb_rtes.Base.{
  ℕ, zero, suc, ◌-◌, ◌<◌, ◌≤◌, ◌≡◌, ◌⊎◌, inl, inr, refl, Bool-cases, true, false, List, [], ◌∷◌,
  ◌++◌, arith, length,
}
use ucb_rtes.Base.Bytes.{c_str, has_nul}

abbrev pub buf_size : ℕ
buf_size = 1024

abbrev pub log_debug : ℕ
log_debug = 7

-- `fmt::format_to_n` into a buffer: the first n bytes of the text.
unfoldable pub format_to_n : ℕ → List ℕ → List ℕ
format_to_n zero text = []
format_to_n (suc n) [] = []
format_to_n (suc n) (x ∷ xs) = x ∷ format_to_n n xs

-- What `syslog` reads: the buffer up to its first NUL, with one written behind the text.
unfoldable pub syslog : ℕ → List ℕ → ℕ × List ℕ
syslog prio text = (prio, c_str (format_to_n (buf_size - 1) text ++ (0 ∷ [])))

unfoldable pub debug : List ℕ → ℕ × List ℕ
debug text = syslog log_debug text

c_str-terminated : (xs : List ℕ) → length (c_str (xs ++ (0 ∷ []))) ≤ length xs
unfolding c_str
c_str-terminated [] = omega arith
c_str-terminated (x ∷ xs) = ground (arith, c_str-terminated xs)

c_str-exact : (xs : List ℕ) → has_nul xs ≡ false → c_str (xs ++ (0 ∷ [])) ≡ xs
unfolding c_str
c_str-exact [] h = refl
c_str-exact (x ∷ xs) h = ground (arith, c_str-exact xs)

length-format_to_n : (n : ℕ) (xs : List ℕ) → length (format_to_n n xs) ≤ n
unfolding format_to_n
length-format_to_n zero xs = omega arith
length-format_to_n (suc n) [] = omega arith
length-format_to_n (suc n) (x ∷ xs) = omega (arith, length-format_to_n n xs)

format_to_n-all : (n : ℕ) (xs : List ℕ) → length xs ≤ n → format_to_n n xs ≡ xs
unfolding format_to_n
format_to_n-all zero [] h = refl
format_to_n-all zero (x ∷ xs) h = absurd (omega arith)
format_to_n-all (suc n) [] h = refl
format_to_n-all (suc n) (x ∷ xs) h = rw (format_to_n-all n xs (omega arith)) refl

-- The message fits the buffer with the NUL behind it, and a text without NUL that fits is logged whole,
-- at the priority given.
pub syslog-fits :
    (prio : ℕ) (text : List ℕ)
    → ((syslog prio text).0 ≡ prio)
      × (length (syslog prio text).1 < buf_size)
      × ((has_nul text ≡ true) ⊎ (buf_size ≤ length text) ⊎ ((syslog prio text).1 ≡ text))
unfolding syslog
syslog-fits prio text = (
  refl,
  omega (arith, c_str-terminated (format_to_n 1023 text), length-format_to_n 1023 text),
  elim (Bool-cases (has_nul text)) [
    | inl n ↦ inl n
    | inr n ↦ elim (dec_lt (length text) 1024) [
      | yes s ↦ inr (inr (rw (format_to_n-all 1023 text (omega arith)) (c_str-exact text n)))
      | no s ↦ inr (inl (omega arith))
    ]
  ],
)
