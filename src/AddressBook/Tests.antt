-- ===== src/AddressBook/Tests.antt =====
-- e3x/exchange_address_book.go: an insertion sort that meets the contract of `sort.Sort`, and the
-- theorems at concrete address books.
use gogotelehash.AddressBook.{
  Entry, AddressBook, less, less_duration, new_address_book, add_pipe, index_of_pipe,
  next_handshake_epoch, refresh, handshake_pipes, active_connection, sent_handshake,
  received_handshake, pipe_to_addr, deliver_handshakes, add_path_candidate, add_pipe_connection,
}
use gogotelehash.AddressBook.Sorting.{Ordered, Sorts, All-perm}
use gogotelehash.AddressBook.Epoch.{Settled, next_handshake_epoch-Settled}
use gogotelehash.AddressBook.Invariant.{
  BookReach, here, next, adds, delivers, IsConsistent, new_address_book-IsConsistent,
}
use gogotelehash.AddressBook.Broken.{HeardReach, HeardStep, broken_forever}
use gogotelehash.Lob.Packet.{ℤ, pos, negsuc}
use mathlib.Core.List.{Permᴰ}
use mathlib.Core.List.Permᴰ
use gogotelehash.Prelude.{
  ◌≡◌, refl, true, false, List, [], ◌∷◌, map, arith, if◌then◌else◌, if_intro, All, All-map, ℕ, ◌≢◌,
  Option, none, some, ◌==◌, Bool,
}

insert_entry : Entry → List Entry → List Entry
insert_entry e [] = e ∷ []
insert_entry e (f ∷ rest) =
    let behind = f ∷ insert_entry e rest in if less e f then e ∷ f ∷ rest else behind

insertion_sort : List Entry → List Entry
unfolding insert_entry
insertion_sort [] = []
insertion_sort (e ∷ rest) = insert_entry e (insertion_sort rest)

insert_entry-perm : (e : Entry) (l : List Entry) → Permᴰ (e ∷ l) (insert_entry e l)
unfolding insert_entry
insert_entry-perm e [] = Permᴰ.refl (e ∷ [])
insert_entry-perm e (f ∷ rest) =
    if_intro (Permᴰ (e ∷ f ∷ rest)) (less e f) (λ _. Permᴰ.refl (e ∷ f ∷ rest))
      (λ _. Permᴰ.trans (Permᴰ.swap refl refl) (Permᴰ.cons refl (insert_entry-perm e rest)))

duration_asym : (a b : ℤ) → less_duration a b ≡ true → less_duration b a ≡ false
duration_asym (pos a) (pos b) h = ground arith
duration_asym (pos a) (negsuc b) h = cc
duration_asym (negsuc a) (pos b) h = refl
duration_asym (negsuc a) (negsuc b) h = ground arith

duration_trans :
    (a b c : ℤ) → less_duration a b ≡ true → less_duration c b ≡ false → less_duration c a ≡ false
duration_trans (pos a) (pos b) (pos c) h k = ground arith
duration_trans (pos a) (pos b) (negsuc c) h k = ground arith
duration_trans (pos a) (negsuc b) c h k = ground arith
duration_trans (negsuc a) (pos b) (pos c) h k = ground arith
duration_trans (negsuc a) (pos b) (negsuc c) h k = ground arith
duration_trans (negsuc a) (negsuc b) (pos c) h k = ground arith
duration_trans (negsuc a) (negsuc b) (negsuc c) h k = ground arith

less_asym : (e f : Entry) → less e f ≡ true → less f e ≡ false
unfolding less
less_asym e f h = ground (arith, duration_asym e.ewma f.ewma)

less_trans : (e f g : Entry) → less e f ≡ true → less g f ≡ false → less g e ≡ false
unfolding less
less_trans e f g h k = ground (arith, duration_trans e.ewma f.ewma g.ewma)

insert_entry-Ordered : (e : Entry) (l : List Entry) → Ordered l → Ordered (insert_entry e l)
unfolding insert_entry
insert_entry-Ordered e [] o = (tt, tt)
insert_entry-Ordered e (f ∷ rest) o =
    if_intro Ordered (less e f)
      (λ first. ((less_asym e f first, All-map rest (λ g k. less_trans e f g first k) o.0), o))
      (λ later. (
        All-perm (λ g. less g f ≡ false) (insert_entry-perm e rest) (later, o.0),
        insert_entry-Ordered e rest o.1,
      ))

insertion_sort-perm : (l : List Entry) → Permᴰ l (insertion_sort l)
unfolding insertion_sort
insertion_sort-perm [] = Permᴰ.refl []
insertion_sort-perm (e ∷ rest) =
    Permᴰ.trans (Permᴰ.cons refl (insertion_sort-perm rest))
      (insert_entry-perm e (insertion_sort rest))

insertion_sort-Ordered : (l : List Entry) → Ordered (insertion_sort l)
unfolding insertion_sort
insertion_sort-Ordered [] = tt
insertion_sort-Ordered (e ∷ rest) =
    insert_entry-Ordered e (insertion_sort rest) (insertion_sort-Ordered rest)

insertion_sort-Sorts : Sorts insertion_sort
insertion_sort-Sorts = record { rearranges = insertion_sort-perm; ordered = insertion_sort-Ordered }

-- A blend that takes the last sample.
abbrev last_sample : ℤ → ℤ → ℤ
last_sample d w = d

abbrev one_path : AddressBook
one_path = add_pipe 5 1 11 new_address_book

abbrev two_paths : AddressBook
two_paths = add_pipe 6 2 12 one_path

-- Handshakes were sent to both pipes.
abbrev asked : AddressBook
asked = sent_handshake 20 2 (sent_handshake 20 1 two_paths)

asked_first : active_connection asked ≡ some 1
unfolding active_connection sent_handshake add_pipe
asked_first = refl

abbrev or_else : Option AddressBook → AddressBook
or_else none = new_address_book
or_else (some b) = b

-- The second pipe answers, and becomes the active one.
abbrev answered : AddressBook
answered = or_else (received_handshake 30 2 asked)

answered_second :
    active_connection (next_handshake_epoch last_sample insertion_sort 100 answered) ≡ some 2
unfolding active_connection next_handshake_epoch received_handshake sent_handshake add_pipe
    insertion_sort less
answered_second = refl

-- An answer over an unknown pipe.
unknown_pipe : received_handshake 30 7 asked ≡ none
unfolding received_handshake sent_handshake add_pipe
unknown_pipe = refl

found_by_address : pipe_to_addr (λ a b. a == b) 12 asked ≡ some 2
unfolding pipe_to_addr sent_handshake add_pipe
found_by_address = refl

asked_known : asked.known ≢ []
unfolding sent_handshake add_pipe
asked_known h = cc

next_handshake_epoch-Settled_example :
    Settled
      (map (refresh last_sample 100) asked.known)
      (next_handshake_epoch last_sample insertion_sort 100 asked)
    × All
        (λ e. (e.sent_at ≡ 0) × (e.received_at ≡ 0))
        (next_handshake_epoch last_sample insertion_sort 100 asked).known
next_handshake_epoch-Settled_example =
    next_handshake_epoch-Settled last_sample insertion_sort insertion_sort-Sorts 100 asked
      asked_known

abbrev grown : AddressBook
grown =
    deliver_handshakes last_sample insertion_sort 100 true (λ p. 101) (λ p. true)
      (add_pipe 5 1 11 new_address_book)

grown-BookReach : BookReach last_sample insertion_sort new_address_book grown
grown-BookReach = next (next here (adds 5 1 11)) (delivers 100 true (λ p. 101) (λ p. true))

new_address_book-IsConsistent_example : IsConsistent grown
new_address_book-IsConsistent_example =
    new_address_book-IsConsistent last_sample insertion_sort insertion_sort-Sorts grown-BookReach

-- No answer came in time.
abbrev late : ℕ
late = 200_000_000_000

gives_up : active_connection (next_handshake_epoch last_sample insertion_sort late asked) ≡ none
unfolding active_connection next_handshake_epoch sent_handshake add_pipe insertion_sort less
gives_up = refl

abbrev given_up : AddressBook
given_up = next_handshake_epoch last_sample insertion_sort late asked

-- The peer's own handshake comes over the first pipe, and a new epoch begins.
heard : HeardReach last_sample insertion_sort given_up (
    deliver_handshakes last_sample insertion_sort late true
      (λ p. late)
      (λ p. true)
      (add_pipe late 1 11 given_up))
unfolding next_handshake_epoch sent_handshake add_pipe insertion_sort less index_of_pipe
heard =
    HeardReach.next (HeardReach.next HeardReach.here (HeardStep.hears late 1 11 1 refl))
      (HeardStep.delivers late true (λ p. late) (λ p. true))

broken_forever_example :
    (active_connection (
        deliver_handshakes last_sample insertion_sort late true
          (λ p. late)
          (λ p. true)
          (add_pipe late 1 11 given_up))
      ≡ none)
    × (handshake_pipes (
          deliver_handshakes last_sample insertion_sort late true
            (λ p. late)
            (λ p. true)
            (add_pipe late 1 11 given_up))
        ≡ [])
broken_forever_example =
    broken_forever last_sample insertion_sort insertion_sort-Sorts late asked gives_up heard

abbrev same_addr : ℕ → ℕ → Bool
same_addr a b = a == b

known_candidate : add_path_candidate same_addr 7 3 12 two_paths ≡ two_paths
unfolding add_path_candidate add_pipe
known_candidate = refl

-- A connection that is added under an address of its caller is not found under it.
added_elsewhere :
    pipe_to_addr same_addr 13 (add_pipe_connection same_addr 7 3 (some 13) 14 two_paths).0 ≡ none
unfolding add_pipe_connection pipe_to_addr add_pipe
added_elsewhere = refl
