-- ===== src/Channel/Buffer/Sort.antt =====
-- e3x/channel.go: `sort.Sort` on the read buffer.
use mathlib.Core.List.{append_assoc, append-nil, List, ◌++◌, ◌∷◌, []}
use gogotelehash.Channel.Ascends.{Ascends, AtMost, AtMost-mono}
use gogotelehash.Channel.Receive.{insert_sorted, sort_onto, sort_entries}
use gogotelehash.Channel.Types.{ReadBufferEntry}
use Prim.Native.Nat.{ℕ, ◌≤◌}
use gogotelehash.Prelude.{◌≡◌, refl, ◌∙◌, arith}

insert_sorted-last :
    (e : ReadBufferEntry) (acc : List ReadBufferEntry)
    → AtMost e.seq acc
    → insert_sorted e acc ≡ acc ++ e ∷ []
insert_sorted-last e [] h = refl
insert_sorted-last e (x ∷ acc) h = ground (arith, insert_sorted-last e acc h.1)

pub AtMost-concat :
    (n : ℕ) (s : List ReadBufferEntry) (e : ReadBufferEntry)
    → e.seq ≤ n
    → AtMost n s
    → AtMost n (s ++ e ∷ [])
AtMost-concat n [] e h a = (h, tt)
AtMost-concat n (x ∷ s) e h a = (a.0, AtMost-concat n s e h a.1)

sort_onto-append :
    (n : ℕ) (acc es : List ReadBufferEntry)
    → AtMost n acc
    → Ascends n es
    → sort_onto acc es ≡ acc ++ es
sort_onto-append n acc [] h a = rw append-nil
sort_onto-append n acc (e ∷ es) h a =
    rw (insert_sorted-last e acc (AtMost-mono acc (omega arith) h)) (
      sort_onto-append e.seq (acc ++ e ∷ []) es
        (AtMost-concat e.seq acc e (omega arith) (AtMost-mono acc (omega arith) h)) a.1
      ∙ append_assoc acc (e ∷ []) es)

pub sort_entries-id : (n : ℕ) (s : List ReadBufferEntry) → Ascends n s → sort_entries s ≡ s
unfolding sort_entries
sort_entries-id n s a = sort_onto-append n [] s tt a
