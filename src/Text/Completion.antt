-- ===== src/Text/Completion.antt =====
-- completion.c: the list of completions and the one that is shown.
use hikari_sakura.Prelude.{ℕ, suc, ◌-◌, ◌==◌, if◌then◌else◌, List, [], ◌∷◌, ◌++◌, length, get_or}
use hikari_sakura.Text.InputBuffer.{copy_string}

-- The items' `data`, and the place of `current_item`.
pub record Completion : Type 0 where
  pub items : List (List ℕ)
  pub current_item : ℕ

-- `memory` is what `hikari_malloc` returns for the new item's 256 bytes.
unfoldable pub completion_add : List ℕ → List ℕ → Completion → Completion
unfolding copy_string
completion_add memory content c = record c {
  items = c.items ++ copy_string 255 content memory ∷ [];
}

unfoldable pub completion_init : List ℕ → List ℕ → Completion
unfolding completion_add
completion_init memory content =
    completion_add memory content (record { items = []; current_item = 0 })

unfoldable pub completion_fini : Completion → Completion
completion_fini c = record c { items = [] }

unfoldable pub completion_cancel : Completion → Completion
completion_cancel c = record c { current_item = 0 }

-- COMPLETION(next): behind the last item stands the list's head, and then the first.
unfoldable pub completion_next : Completion → Completion
completion_next c = record c {
  current_item = if suc c.current_item == length c.items then 0 else suc c.current_item;
}

unfoldable pub completion_prev : Completion → Completion
completion_prev c = record c {
  current_item = if c.current_item == 0 then length c.items - 1 else c.current_item - 1;
}

-- What `cancel`, `next` and `prev` return.
unfoldable pub shown : Completion → List ℕ
shown c = get_or c.items c.current_item []
