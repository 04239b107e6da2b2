-- ===== src/Kernel/Eintr.antt =====
-- base/eintr_wrapper.h: `HANDLE_EINTR_ON_SYSCALL`, over the results of the attempts of one call.
-- The loop runs on fuel; `none` means that the fuel ran out.
use aio_server.Base.{
  ℕ, zero, suc, ◌+◌, ◌<◌, ◌≡◌, ◌≢◌, refl, ap, Bool, false, Option, none, some, ◌==◌, if◌then◌else◌,
  arith, ne→==_false, subst,
}
use aio_server.Kernel.{Answer, done, failed}

abbrev pub eintr : ℕ
eintr = 4

-- `__eintr_result__ == -1 && errno == EINTR`
abbrev interrupted : Answer → Bool
interrupted (done n) = false
interrupted (failed e) = e == eintr

-- The result of the loop, and the number of the attempt after it.
unfoldable pub handle_eintr : (ℕ → Answer) → ℕ → ℕ → Option (Answer × ℕ)
handle_eintr attempt zero i = none
handle_eintr attempt (suc f) i =
    let rest = handle_eintr attempt f (i + 1) in
    if interrupted (attempt i) then rest else some (attempt i, i + 1)

settled : (a : Answer) → a ≢ failed eintr → interrupted a ≡ false
settled (done n) other = refl
settled (failed e) other = ne→==_false e eintr (λ q. other (ap failed q))

-- Where the first n attempts of a call are interrupted and the next is not, the loop ends within
-- n + 1 rounds with the result of that attempt.
pub handle_eintr-first :
    (attempt : ℕ → Answer) (n f i : ℕ)
    → ((j : ℕ) → j < n → attempt (i + j) ≡ failed eintr)
    → attempt (i + n) ≢ failed eintr
    → n < f
    → handle_eintr attempt f i ≡ some (attempt (i + n), i + n + 1)
unfolding handle_eintr
handle_eintr-first attempt n zero i before here lt = absurd (omega arith)
handle_eintr-first attempt zero (suc f) i before here lt =
    let now : i + 0 ≡ i = omega arith in
    let here' : attempt i ≢ failed eintr = subst (λ m. attempt m ≢ failed eintr) now here in
    rw (now, settled (attempt i) here') refl
handle_eintr-first attempt (suc n) (suc f) i before here lt =
    let now : i + 0 ≡ i = omega arith in
    let later : i + suc n ≡ i + 1 + n = omega arith in
    let first : attempt i ≡ failed eintr =
      subst (λ m. attempt m ≡ failed eintr) now (before 0 (omega arith)) in
    let before' : (j : ℕ) → j < n → attempt (i + 1 + j) ≡ failed eintr = λ j lt.
      let at : i + suc j ≡ i + 1 + j = omega arith in
      subst (λ m. attempt m ≡ failed eintr) at (before (suc j) (omega arith)) in
    let here' : attempt (i + 1 + n) ≢ failed eintr =
      subst (λ m. attempt m ≢ failed eintr) later here in
    rw (first, later) (handle_eintr-first attempt n f (i + 1) before' here' (omega arith))
