-- ===== src/Unicast/Online.antt =====
-- When the link counts as up.
use io_t_collector.Base.{
  ℕ, ◌+◌, ◌≡◌, refl, ap, ◌∙◌, arith, Bool, true, false, not, if◌then◌else◌, leb, List, [], ◌∷◌,
}
use io_t_collector.Unicast.{Link, heartbeat_lost_limit, unicast_mark_result}

-- The link after the results of several sends.
unfoldable pub mark_all : Link → List Bool → Link
mark_all l [] = l
mark_all l (r ∷ rs) = mark_all (unicast_mark_result l r) rs

-- The failures since the last success, after `n` before the results.
unfoldable pub last_failures : ℕ → List Bool → ℕ
last_failures n [] = n
last_failures n (true ∷ rs) = last_failures 0 rs
last_failures n (false ∷ rs) = last_failures (n + 1) rs

-- The link is up as long as its streak is below the limit.
abbrev Agrees : Link → Type 0
Agrees l = l.online ≡ not (leb heartbeat_lost_limit l.fail_streak)

mark-Agrees : (l : Link) (r : Bool) → Agrees l → Agrees (unicast_mark_result l r)
unfolding unicast_mark_result
mark-Agrees l true h = refl
mark-Agrees l false h = ground arith

mark-streak :
    (l : Link) (r : Bool)
    → (unicast_mark_result l r).fail_streak ≡ (if r then 0 else l.fail_streak + 1)
unfolding unicast_mark_result
mark-streak l true = refl
mark-streak l false = refl

-- From a link that is up exactly while its streak is below three, after any results of sends the
-- streak is the number of failures since the last success, and the link is up exactly while that
-- number is below three.
pub mark_all-online :
    (l : Link) (rs : List Bool)
    → l.online ≡ not (leb heartbeat_lost_limit l.fail_streak)
    → ((mark_all l rs).fail_streak ≡ last_failures l.fail_streak rs)
      × ((mark_all l rs).online ≡ not (leb heartbeat_lost_limit (last_failures l.fail_streak rs)))
unfolding mark_all last_failures
mark_all-online l [] h = (refl, h)
mark_all-online l (true ∷ rs) h =
    let (streak, up) = mark_all-online (unicast_mark_result l true) rs (mark-Agrees l true h) in
    (
      streak ∙ ap (λ n. last_failures n rs) (mark-streak l true),
      up ∙ ap (λ n. not (leb heartbeat_lost_limit (last_failures n rs))) (mark-streak l true),
    )
mark_all-online l (false ∷ rs) h =
    let (streak, up) = mark_all-online (unicast_mark_result l false) rs (mark-Agrees l false h) in
    (
      streak ∙ ap (λ n. last_failures n rs) (mark-streak l false),
      up ∙ ap (λ n. not (leb heartbeat_lost_limit (last_failures n rs))) (mark-streak l false),
    )
