-- ===== src/Utils/Book.antt =====
-- pkg/utils/book.go: `RoutineBook`. `free` is the number of tokens in `freeSpaceChan`. A page's value
-- is always "active", so `pages` is the list of its keys, each listed once.
use eth_cl_state_analyzer.Common.{
  ℕ, ◌+◌, ◌-◌, Bool, true, false, List, [], ◌∷◌, length, ◌==◌, if◌then◌else◌,
}

pub record RoutineBook : Type 0 where
  pub pages : List ℕ
  pub free : ℕ
  pub size : ℕ

-- `NewRoutineBook` and `Init`
unfoldable pub new_routine_book : ℕ → RoutineBook
new_routine_book size = record { pages = []; free = size; size = size }

-- `CheckPageActive`
unfoldable pub has_page : ℕ → List ℕ → Bool
has_page key [] = false
has_page key (k ∷ ks) = if key == k then true else has_page key ks

unfoldable pub check_page_active : RoutineBook → ℕ → Bool
unfolding has_page
check_page_active r key = has_page key r.pages

-- `r.pages[key] = value`
unfoldable pub put_page : ℕ → List ℕ → List ℕ
unfolding has_page
put_page key ks = if has_page key ks then ks else key ∷ ks

-- `delete(r.pages, key)`
unfoldable pub delete_page : ℕ → List ℕ → List ℕ
delete_page key [] = []
delete_page key (k ∷ ks) = if key == k then ks else k ∷ delete_page key ks

-- `Acquire` that receives a token.
unfoldable pub acquire : RoutineBook → ℕ → RoutineBook
unfolding put_page
acquire r key = record r { pages = put_page key r.pages; free = r.free - 1 }

-- `Acquire`: without a token for a minute, it returns without a page.
unfoldable pub acquire_or_time_out : RoutineBook → ℕ → RoutineBook
unfolding acquire
acquire_or_time_out r key = if r.free == 0 then r else acquire r key

-- `FreePage`
unfoldable pub free_page : RoutineBook → ℕ → RoutineBook
unfolding delete_page
free_page r key =
    if check_page_active r key
    then record r { pages = delete_page key r.pages; free = r.free + 1 }
    else r

-- `NumFreePages`
unfoldable pub num_free_pages : RoutineBook → ℕ
num_free_pages r = r.size - length r.pages

-- `ActivePages`
unfoldable pub active_pages : RoutineBook → ℕ
active_pages r = length r.pages
