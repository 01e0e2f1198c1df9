-- ===== src/Utils/BookTokens.antt =====
-- pkg/utils/book.go: the tokens of a `RoutineBook` through any history of its calls. A call that takes
-- a token needs one in the channel; after a minute without one `Acquire` returns and does nothing.
use eth_cl_state_analyzer.Common.{
  refl, ℕ, suc, ◌+◌, ◌≤◌, ◌<◌, ◌≡◌, true, false, List, [], ◌∷◌, length, if◌then◌else◌, arith, ◌==◌,
  inl, inr, Bool-cases, not_zero→pos,
}
use eth_cl_state_analyzer.Utils.Book.{
  RoutineBook, new_routine_book, has_page, check_page_active, put_page, delete_page, acquire,
  acquire_or_time_out, free_page, num_free_pages,
}

-- A book of a size after some calls, and how many of them took a token for a page that was active
-- already.
pub data Reach (size : ℕ) : RoutineBook → ℕ → Type 0 where
  start : Reach size (new_routine_book size) 0
  acquired :
      {r : RoutineBook} {n : ℕ}
      → Reach size r n
      → (key : ℕ) → 0 < r.free
      → check_page_active r key ≡ false
      → Reach size (acquire r key) n
  reacquired :
      {r : RoutineBook} {n : ℕ}
      → Reach size r n
      → (key : ℕ) → 0 < r.free
      → check_page_active r key ≡ true
      → Reach size (acquire r key) (suc n)
  timed_out : {r : RoutineBook} {n : ℕ} → Reach size r n → Reach size r n
  freed : {r : RoutineBook} {n : ℕ} → Reach size r n → (key : ℕ) → Reach size (free_page r key) n

length-delete_page :
    (key : ℕ) (ks : List ℕ) → has_page key ks ≡ true → suc (length (delete_page key ks)) ≡ length ks
unfolding has_page delete_page
length-delete_page key [] h = cc
length-delete_page key (k ∷ ks) h = ground (arith, length-delete_page key ks)

length-put_page :
    (key : ℕ) (ks : List ℕ)
    → length (put_page key ks) ≡ (if has_page key ks then length ks else suc (length ks))
unfolding put_page
length-put_page key ks = ground arith

-- What a history keeps.
record Inv (size n : ℕ) (r : RoutineBook) : Type 0 where
  same_size : r.size ≡ size
  balance : length r.pages + r.free + n ≡ size

Reach-Inv : {size n : ℕ} {r : RoutineBook} → Reach size r n → Inv size n r
unfolding new_routine_book check_page_active acquire free_page
Reach-Inv start = ground arith
Reach-Inv (acquired {r = r} h key f a) = ground (arith, Reach-Inv h, length-put_page key r.pages)
Reach-Inv (reacquired {r = r} h key f a) = ground (arith, Reach-Inv h, length-put_page key r.pages)
Reach-Inv (timed_out h) = Reach-Inv h
Reach-Inv (freed {r = r} h key) = ground (arith, Reach-Inv h, length-delete_page key r.pages)

-- After any calls the active pages, the tokens in the channel and the calls that took an active page
-- again add up to the size. So the channel never holds more than it has room for, and
-- `NumFreePages` exceeds the tokens by the number of those calls, each of which has lost one.
pub tokens_conserved :
    {size n : ℕ} {r : RoutineBook}
    → Reach size r n
    → (length r.pages + r.free + n ≡ size) × (r.free ≤ size) × (num_free_pages r ≡ r.free + n)
unfolding num_free_pages
tokens_conserved h = ground (arith, Reach-Inv h)

free_page-acquire :
    (r : RoutineBook) (key : ℕ)
    → 0 < r.free
    → check_page_active r key ≡ false
    → free_page (acquire r key) key ≡ r
unfolding free_page acquire check_page_active put_page delete_page has_page
free_page-acquire r key f a = ground arith

pub free_inactive : (r : RoutineBook) (k : ℕ) → check_page_active r k ≡ false → free_page r k ≡ r
unfolding free_page
free_inactive r k h = rw (h) refl

-- A book is as it was after a call of Acquire for a page that is not active, whether it took the page
-- or timed out, and then one of FreePage for the page.
pub free_page-acquire_or_time_out :
    (r : RoutineBook) (key : ℕ)
    → check_page_active r key ≡ false
    → free_page (acquire_or_time_out r key) key ≡ r
unfolding acquire_or_time_out
free_page-acquire_or_time_out r key a = elim (Bool-cases (r.free == 0)) [
  | inl e ↦ rw (e) (free_inactive r key a)
  | inr e ↦ rw (e) (free_page-acquire r key (not_zero→pos r.free e) a)
]
