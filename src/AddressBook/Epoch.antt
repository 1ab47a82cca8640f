-- ===== src/AddressBook/Epoch.antt =====
-- e3x/exchange_address_book.go, `NextHandshakeEpoch`: which paths are kept, used and probed.
use gogotelehash.AddressBook.{
  Entry, AddressBook, less, less_duration, refresh, mark_backups, first_reachable, settle,
  max_entries, next_handshake_epoch, num_backups, entry_at,
}
use gogotelehash.AddressBook.Sorting.{Ordered, Sorts, All-perm, length-perm, All-take}
use gogotelehash.Lob.Packet.{ℤ, pos, negsuc}
use mathlib.Core.List.{Permᴰ}
use mathlib.Core.List.Permᴰ
use native.Mathlib.Nat.{zero-add}
use gogotelehash.Prelude.{
  ℕ, zero, suc, ◌+◌, ◌≤◌, ◌≡◌, refl, sym, ◌∙◌, ap, subst, ◌≢◌, ◌⊎◌, inl, inr, Bool, true, false,
  ◌&&◌, Option, none, some, List, [], ◌∷◌, ◌++◌, map, arith, ltb, Bool-cases, length, take, drop,
  All, All-map, ◌==◌, if_intro,
}

abbrev pub unmark : Entry → Entry
unmark e = record e { is_backup = false }

-- The entry is one of the list.
abbrev pub Has : Entry → List Entry → Type 0
Has e [] = ⊥
Has e (f ∷ rest) = (e ≡ f) ⊎ Has e rest

-- No path is reachable; or that of `p` is, by one of the entries, and none that is reachable has a lower
-- average latency than that entry.
abbrev pub Best : Option ℕ → List Entry → Type 0
Best none judged = All (λ e. e.reachable ≡ false) judged
Best (some p) judged =
    (e : Entry) × Has e judged
    × (e.pipe ≡ p)
    × (e.reachable ≡ true)
    × All (λ f. f.reachable ≡ true → less_duration f.ewma e.ewma ≡ false) judged

-- What an epoch makes of the entries, each judged by its own handshake: it keeps `kept`, the first
-- sixteen in order of reachability and latency, uses the best, and marks those reachable among the
-- first three as backups.
pub record Settled (judged : List Entry) (b : AddressBook) : Type 0 where
  pub kept : List Entry
  pub dropped : List Entry
  pub all_there : Permᴰ judged (kept ++ dropped)
  pub in_order : Ordered (kept ++ dropped)
  pub at_most : length kept ≤ max_entries
  pub no_waste : length judged ≤ max_entries → dropped ≡ []
  pub best : Best b.active judged
  pub same_entries : map unmark b.known ≡ map unmark kept
  pub backups :
      (i : ℕ) (e : Entry)
      → entry_at i b.known ≡ some e
      → e.is_backup ≡ (e.reachable && ltb i num_backups)

take-drop : (n : ℕ) (l : List Entry) → take n l ++ drop n l ≡ l
take-drop zero l = refl
take-drop (suc n) [] = refl
take-drop (suc n) (e ∷ rest) = ap (λ (t : List Entry). e ∷ t) (take-drop n rest)

length-take-le : (n : ℕ) (l : List Entry) → length (take n l) ≤ n
length-take-le zero l = omega arith
length-take-le (suc n) [] = omega arith
length-take-le (suc n) (e ∷ rest) = omega (arith, length-take-le n rest)

drop_all : (n : ℕ) (l : List Entry) → length l ≤ n → drop n l ≡ []
drop_all zero [] h = refl
drop_all zero (e ∷ rest) h = absurd (omega arith)
drop_all (suc n) [] h = refl
drop_all (suc n) (e ∷ rest) h = drop_all n rest (omega arith)

unmark-mark_backups : (i : ℕ) (l : List Entry) → map unmark (mark_backups i l) ≡ map unmark l
unfolding mark_backups
unmark-mark_backups i [] = refl
unmark-mark_backups i (e ∷ rest) =
    ap (λ (t : List Entry). unmark e ∷ t) (unmark-mark_backups (suc i) rest)

mark_backups-backups :
    (n : ℕ) (l : List Entry) (i : ℕ) (e : Entry)
    → entry_at i (mark_backups n l) ≡ some e
    → e.is_backup ≡ (e.reachable && ltb (n + i) num_backups)
unfolding mark_backups
mark_backups-backups n [] i e h = cc
mark_backups-backups n (f ∷ rest) zero e h = ground arith
mark_backups-backups n (f ∷ rest) (suc i) e h =
    let k = mark_backups-backups (suc n) rest i e h in
    let same : suc n + i ≡ n + suc i = omega arith in
    subst (λ (m : ℕ). e.is_backup ≡ (e.reachable && ltb m num_backups)) same k

-- A list begins with the best of its entries, if it is in order.
pub behind_first :
    (e : Entry) (rest : List Entry)
    → e.reachable ≡ false
    → All (λ f. less f e ≡ false) rest
    → All (λ f. f.reachable ≡ false) rest
unfolding less
behind_first e rest h k = All-map rest (λ f l. ground arith) k

slower_behind :
    (e : Entry) (rest : List Entry)
    → e.reachable ≡ true
    → All (λ f. less f e ≡ false) rest
    → All (λ f. f.reachable ≡ true → less_duration f.ewma e.ewma ≡ false) rest
unfolding less
slower_behind e rest h k = All-map rest (λ f l r. ground arith) k

not_less_self : (d : ℤ) → less_duration d d ≡ false
not_less_self (pos n) = ground arith
not_less_self (negsuc n) = ground arith

first_reachable-Best : (l : List Entry) → Ordered l → Best (first_reachable l) l
first_reachable-Best [] o = tt
first_reachable-Best (e ∷ rest) o =
    if_intro (λ (p : Option ℕ). Best p (e ∷ rest)) e.reachable
      (λ up. (e, inl refl, refl, up, ((λ _. not_less_self e.ewma), slower_behind e rest up o.0)))
      (λ down. (down, behind_first e rest down o.0))

-- An entry of a list is one of any list in another order.
Has-perm : (e : Entry) {xs ys : List Entry} → Permᴰ xs ys → Has e xs → Has e ys
Has-perm e (Permᴰ.nil) h = h
Has-perm e (Permᴰ.cons x p) (inl same) = inl (same ∙ x)
Has-perm e (Permᴰ.cons x p) (inr h) = inr (Has-perm e p h)
Has-perm e (Permᴰ.swap x y) (inl same) = inr (inl (same ∙ x))
Has-perm e (Permᴰ.swap x y) (inr (inl same)) = inl (same ∙ y)
Has-perm e (Permᴰ.swap x y) (inr (inr h)) = inr (inr h)
Has-perm e (Permᴰ.trans p q) h = Has-perm e q (Has-perm e p h)

Best-perm : (o : Option ℕ) {xs ys : List Entry} → Permᴰ xs ys → Best o xs → Best o ys
Best-perm none p h = All-perm _ p h
Best-perm (some q) p (e, there, same, up, least) =
    (e, Has-perm e p there, same, up, All-perm _ p least)

first_reachable-take : (l : List Entry) → first_reachable (take max_entries l) ≡ first_reachable l
first_reachable-take [] = refl
first_reachable-take (e ∷ rest) = refl

pub no_entries : (l : List Entry) → length l ≡ 0 → l ≡ []
no_entries [] h = refl
no_entries (e ∷ rest) h = absurd (omega arith)

-- What does not depend on the mark holds of the marked entries.
pub mark_backups-All :
    (n : ℕ) {P : Entry → Type 0} (l : List Entry)
    → ((e : Entry) (b : Bool) → P e → P (record e { is_backup = b }))
    → All P l
    → All P (mark_backups n l)
unfolding mark_backups
mark_backups-All n [] k h = tt
mark_backups-All n (e ∷ rest) k h = (k e _ h.0, mark_backups-All (suc n) rest k h.1)

pub All-map_of :
    {f : Entry → Entry} (P : Entry → Type 0) (l : List Entry)
    → ((e : Entry) → P (f e))
    → All P (map f l)
All-map_of P [] h = tt
All-map_of P (e ∷ rest) h = (h e, All-map_of P rest h)

module _ (blend : ℤ → ℤ → ℤ) (sort : List Entry → List Entry) (sorts : Sorts sort) where
  settle-Settled : (judged : List Entry) → Settled judged (settle blend sort (sort judged))
  unfolding settle
  settle-Settled judged =
      let s = sort judged in
      let whole = take-drop max_entries s in
      record {
        kept = take max_entries s;
        dropped = drop max_entries s;
        all_there = subst (Permᴰ judged) (sym whole) (sorts.rearranges judged);
        in_order = subst Ordered (sym whole) (sorts.ordered judged);
        at_most = length-take-le max_entries s;
        no_waste =
            λ h. drop_all max_entries s (omega (arith, length-perm (sorts.rearranges judged)));
        best = rw (first_reachable-take s) (
            Best-perm (first_reachable s) (Permᴰ.symm (sorts.rearranges judged))
              (first_reachable-Best s (sorts.ordered judged)));
        same_entries = unmark-mark_backups 0 (take max_entries s);
        backups = λ i e h.
            subst (λ (m : ℕ). e.is_backup ≡ (e.reachable && ltb m num_backups)) (zero-add i)
              (mark_backups-backups 0 (take max_entries s) i e h);
      }

  -- With a sorting function that meets the contract of `sort.Sort`, a handshake epoch of a book with
  -- entries judges each by its last handshake and forgets that; keeps the first sixteen in order of
  -- reachability and average latency and drops none while there are no more; makes a reachable path
  -- of the lowest average latency the active one, and none just if none is reachable; and marks as
  -- backups those that are reachable among the first three.
  pub next_handshake_epoch-Settled :
      (now : ℕ) (b : AddressBook)
      → b.known ≢ []
      → Settled (map (refresh blend now) b.known) (next_handshake_epoch blend sort now b)
        × All
            (λ e. (e.sent_at ≡ 0) × (e.received_at ≡ 0))
            (next_handshake_epoch blend sort now b).known
  unfolding next_handshake_epoch settle refresh
  next_handshake_epoch-Settled now b h = elim (Bool-cases (length b.known == 0)) [
    | inl empty ↦ absurd (h (no_entries b.known (ground arith)))
    | inr some_known ↦ rw some_known (
        let judged = map (refresh blend now) b.known in
        (
          settle-Settled judged,
          mark_backups-All 0 _ (λ e b h. h)
              (All-take _ max_entries (sort judged)
                (All-perm _ (sorts.rearranges judged) (All-map_of _ b.known (λ e. (refl, refl))))),
        ))
  ]
