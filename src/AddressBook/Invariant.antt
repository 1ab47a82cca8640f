-- ===== src/AddressBook/Invariant.antt =====
-- e3x/exchange_address_book.go: the calls that exchange.go makes, in any order, and what every address
-- book keeps.
use gogotelehash.AddressBook.{
  Entry, AddressBook, new_address_book, add_pipe, added_pipe, index_of_pipe, one_later,
  sent_handshake, sent_to, received_handshake, received_from, note_received, change_at, send_each,
  deliver_handshakes, next_handshake_epoch, settle, refresh, mark_backups, first_reachable,
  max_entries, new_entry, or_active, init_samples,
}
use gogotelehash.AddressBook.Sorting.{
  Ordered, Sorts, Distinct, Distinct-perm, Distinct-map, Distinct-take, Ordered-take,
}
use gogotelehash.AddressBook.Epoch.{mark_backups-All, no_entries, behind_first}
use gogotelehash.Lob.Packet.{ℤ}
use gogotelehash.Prelude.{
  ℕ, zero, suc, ◌≡◌, refl, sym, ◌∙◌, subst, ◌≢◌, ◌⊎◌, inl, inr, Bool, true, false, Option, none,
  some, List, [], ◌∷◌, ◌++◌, arith, ◌==◌, Bool-cases, take, All, All-append, if_intro, length,
}

-- What an exchange does with its book: it adds a pipe, notes a handshake on a pipe, or starts an
-- epoch and sends handshakes.
pub data BookStep (blend : ℤ → ℤ → ℤ) (sort : List Entry → List Entry) (b : AddressBook)
    : AddressBook → Type 0 where
  adds : (now p addr : ℕ) → BookStep blend sort b (add_pipe now p addr b)
  receives :
      {c : AddressBook} (now p : ℕ) → received_handshake now p b ≡ some c → BookStep blend sort b c
  delivers :
      (now : ℕ) (generated : Bool) (at : ℕ → ℕ) (wrote : ℕ → Bool)
      → BookStep blend sort b (deliver_handshakes blend sort now generated at wrote b)

pub data BookReach (blend : ℤ → ℤ → ℤ) (sort : List Entry → List Entry) (b : AddressBook)
    : AddressBook → Type 0 where
  here : BookReach blend sort b b
  next :
      {c d : AddressBook}
      → BookReach blend sort b c
      → BookStep blend sort c d
      → BookReach blend sort b d

-- The entry of `p` is there, and its path is reachable.
abbrev pub Reaches : ℕ → List Entry → Type 0
Reaches p [] = ⊥
Reaches p (e ∷ rest) = ((e.pipe ≡ p) × (e.reachable ≡ true)) ⊎ Reaches p rest

abbrev pub ActiveState : Option ℕ → List Entry → Type 0
ActiveState none known = All (λ e. e.reachable ≡ false) known
ActiveState (some p) known = Reaches p known

-- Each pipe has one entry, a backup is reachable, and so is the active path; there is one unless no
-- path is reachable.
pub record IsConsistent (b : AddressBook) : Type 0 where
  pub distinct : Distinct b.known
  pub backups : All (λ e. e.is_backup ≡ true → e.reachable ≡ true) b.known
  pub active_state : ActiveState b.active b.known

-- Two entries differ in what a handshake in flight sets, at most.
pub record SamePath (e f : Entry) : Type 0 where
  pub pipe : e.pipe ≡ f.pipe
  pub reachable : e.reachable ≡ f.reachable
  pub is_backup : e.is_backup ≡ f.is_backup

module _ (f : Entry → Entry) (same : (e : Entry) → SamePath (f e) e) where
  pub change_at-All :
      (P : Entry → Type 0) (i : ℕ) (l : List Entry)
      → ((e : Entry) → P e → P (f e))
      → All P l
      → All P (change_at i f l)
  change_at-All P i [] k h = tt
  change_at-All P zero (e ∷ rest) k h = (k e h.0, h.1)
  change_at-All P (suc i) (e ∷ rest) k h = (h.0, change_at-All P i rest k h.1)

  change_at-Distinct : (i : ℕ) (l : List Entry) → Distinct l → Distinct (change_at i f l)
  change_at-Distinct i [] h = tt
  change_at-Distinct zero (e ∷ rest) h =
      (subst (λ (p : ℕ). All (λ g. g.pipe ≢ p) rest) (sym (same e).pipe) h.0, h.1)
  change_at-Distinct (suc i) (e ∷ rest) h = (
    change_at-All (λ g. g.pipe ≢ e.pipe) i rest (λ g n q. n (sym (same g).pipe ∙ q)) h.0,
    change_at-Distinct i rest h.1,
  )

  change_at-Reaches : (i p : ℕ) (l : List Entry) → Reaches p l → Reaches p (change_at i f l)
  change_at-Reaches i p [] h = h
  change_at-Reaches zero p (e ∷ rest) h = elim h [
    | inl it ↦ inl ((same e).pipe ∙ it.0, (same e).reachable ∙ it.1)
    | inr later ↦ inr later
  ]
  change_at-Reaches (suc i) p (e ∷ rest) h = elim h [
    | inl it ↦ inl it
    | inr later ↦ inr (change_at-Reaches i p rest later)
  ]

  change_at-ActiveState :
      (i : ℕ) (o : Option ℕ) (l : List Entry) → ActiveState o l → ActiveState o (change_at i f l)
  change_at-ActiveState i none l h =
      change_at-All (λ e. e.reachable ≡ false) i l (λ e k. (same e).reachable ∙ k) h
  change_at-ActiveState i (some p) l h = change_at-Reaches i p l h

  change_at-IsConsistent :
      (i : ℕ) (b : AddressBook)
      → IsConsistent b
      → IsConsistent (record b { known = change_at i f b.known })
  change_at-IsConsistent i b w = record {
    distinct = change_at-Distinct i b.known w.distinct;
    backups =
        change_at-All (λ e. e.is_backup ≡ true → e.reachable ≡ true) i b.known
          (λ e k q. (same e).reachable ∙ k (sym (same e).is_backup ∙ q)) w.backups;
    active_state = change_at-ActiveState i b.active b.known w.active_state;
  }

sent_to-IsConsistent :
    (o : Option ℕ) (now : ℕ) (b : AddressBook) → IsConsistent b → IsConsistent (sent_to o now b)
sent_to-IsConsistent none now b w = w
sent_to-IsConsistent (some i) now b w =
    change_at-IsConsistent _ (λ e. record { pipe = refl; reachable = refl; is_backup = refl }) i b w

pub sent_handshake-IsConsistent :
    (now p : ℕ) (b : AddressBook) → IsConsistent b → IsConsistent (sent_handshake now p b)
unfolding sent_handshake
sent_handshake-IsConsistent now p b w = sent_to-IsConsistent (index_of_pipe p b.known) now b w

pub note_received-SamePath : (now : ℕ) (e : Entry) → SamePath (note_received now e) e
unfolding note_received
note_received-SamePath now e = ground arith

received_from-IsConsistent :
    (o : Option ℕ) (now : ℕ) (b c : AddressBook)
    → IsConsistent b
    → received_from o now b ≡ some c
    → IsConsistent c
received_from-IsConsistent none now b c w h = cc
received_from-IsConsistent (some i) now b c w h =
    subst IsConsistent (cc) (change_at-IsConsistent _ (note_received-SamePath now) i b w)

index_of_pipe-none : (p : ℕ) (l : List Entry) → index_of_pipe p l ≡ none → All (λ e. e.pipe ≢ p) l
unfolding index_of_pipe
index_of_pipe-none p [] h = tt
index_of_pipe-none p (e ∷ rest) h = elim (Bool-cases (e.pipe == p)) [
  | inl same ↦ cc (rw same at h)
  | inr other ↦ (
    (λ q. ground arith),
    index_of_pipe-none p rest (later (index_of_pipe p rest) (rw other at h)),
  )
]
  where
    later : (o : Option ℕ) → one_later o ≡ none → o ≡ none
    later none h = refl
    later (some i) h = cc

Distinct-append :
    (l : List Entry) (e : Entry)
    → All (λ f. f.pipe ≢ e.pipe) l
    → Distinct l
    → Distinct (l ++ e ∷ [])
Distinct-append [] e h d = (tt, tt)
Distinct-append (f ∷ rest) e h d = (
  All-append (λ g. g.pipe ≢ f.pipe) rest (e ∷ []) d.0 ((λ q. h.0 (sym q)), tt),
  Distinct-append rest e h.1 d.1,
)

Reaches-append : (p : ℕ) (l m : List Entry) → Reaches p l → Reaches p (l ++ m)
Reaches-append p [] m h = elim h [ ]
Reaches-append p (e ∷ rest) m h = elim h [
  | inl it ↦ inl it
  | inr later ↦ inr (Reaches-append p rest m later)
]

Reaches-last : (l : List Entry) (e : Entry) → e.reachable ≡ true → Reaches e.pipe (l ++ e ∷ [])
Reaches-last [] e h = inl (refl, h)
Reaches-last (f ∷ rest) e h = inr (Reaches-last rest e h)

or_active-ActiveState :
    (o : Option ℕ) (l : List Entry) (e : Entry)
    → e.reachable ≡ true
    → ActiveState o l
    → ActiveState (or_active o e.pipe) (l ++ e ∷ [])
or_active-ActiveState none l e h k = Reaches-last l e h
or_active-ActiveState (some q) l e h k = Reaches-append q l (e ∷ []) k

added_pipe-IsConsistent :
    (o : Option ℕ) (now p addr : ℕ) (b : AddressBook)
    → (o ≡ none → All (λ e. e.pipe ≢ p) b.known)
    → IsConsistent b
    → IsConsistent (added_pipe o now p addr b)
unfolding init_samples
added_pipe-IsConsistent (some i) now p addr b fresh w = w
added_pipe-IsConsistent none now p addr b fresh w =
    let e = new_entry now p addr in
    record {
      distinct = Distinct-append b.known e (fresh refl) w.distinct;
      backups = All-append _ b.known (e ∷ []) w.backups ((λ q. refl), tt);
      active_state = or_active-ActiveState b.active b.known e refl w.active_state;
    }

pub add_pipe-IsConsistent :
    (now p addr : ℕ) (b : AddressBook) → IsConsistent b → IsConsistent (add_pipe now p addr b)
unfolding add_pipe
add_pipe-IsConsistent now p addr b w =
    added_pipe-IsConsistent (index_of_pipe p b.known) now p addr b (index_of_pipe-none p b.known) w

send_each-IsConsistent :
    (at : ℕ → ℕ) (wrote : ℕ → Bool) (pipes : List ℕ) (b : AddressBook)
    → IsConsistent b
    → IsConsistent (send_each at wrote pipes b)
unfolding send_each
send_each-IsConsistent at wrote [] b w = w
send_each-IsConsistent at wrote (p ∷ rest) b w =
    send_each-IsConsistent at wrote rest _
      (if_intro IsConsistent (wrote p) (λ _. sent_handshake-IsConsistent (at p) p b w) (λ _. w))

mark_backups-Distinct : (n : ℕ) (l : List Entry) → Distinct l → Distinct (mark_backups n l)
unfolding mark_backups
mark_backups-Distinct n [] d = tt
mark_backups-Distinct n (e ∷ rest) d =
    (mark_backups-All (suc n) rest (λ f m h. h) d.0, mark_backups-Distinct (suc n) rest d.1)

mark_backups-reachable :
    (n : ℕ) (l : List Entry) → All (λ e. e.is_backup ≡ true → e.reachable ≡ true) (mark_backups n l)
unfolding mark_backups
mark_backups-reachable n [] = tt
mark_backups-reachable n (e ∷ rest) = ((λ h. ground arith), mark_backups-reachable (suc n) rest)

first_reachable-ActiveState :
    (l : List Entry) → Ordered l → ActiveState (first_reachable l) (mark_backups 0 l)
unfolding mark_backups
first_reachable-ActiveState [] o = tt
first_reachable-ActiveState (e ∷ rest) o =
    if_intro (λ (p : Option ℕ). ActiveState p (mark_backups 0 (e ∷ rest))) e.reachable
      (λ up. inl (refl, up))
      (λ down. (down, mark_backups-All 1 rest (λ f m h. h) (behind_first e rest down o.0)))

module _ (blend : ℤ → ℤ → ℤ) where
  refresh-pipe : (now : ℕ) (e : Entry) → (refresh blend now e).pipe ≡ e.pipe
  unfolding refresh
  refresh-pipe now e = ground arith

  module _ (sort : List Entry → List Entry) (sorts : Sorts sort) where
    settle-IsConsistent :
        (judged : List Entry) → Distinct judged → IsConsistent (settle blend sort (sort judged))
    unfolding settle
    settle-IsConsistent judged d = record {
      distinct =
          mark_backups-Distinct 0 _
            (Distinct-take max_entries (sort judged) (Distinct-perm (sorts.rearranges judged) d));
      backups = mark_backups-reachable 0 (take max_entries (sort judged));
      active_state =
          first_reachable-ActiveState _
            (Ordered-take max_entries (sort judged) (sorts.ordered judged));
    }

    pub next_handshake_epoch-IsConsistent :
        (now : ℕ) (b : AddressBook)
        → IsConsistent b
        → IsConsistent (next_handshake_epoch blend sort now b)
    unfolding next_handshake_epoch
    next_handshake_epoch-IsConsistent now b w =
        if_intro IsConsistent (length b.known == 0)
          (λ empty.
            let none_known = no_entries b.known (ground arith) in
            record {
              distinct = w.distinct;
              backups = w.backups;
              active_state = subst (ActiveState none) (sym none_known) tt;
            })
          (λ _.
            settle-IsConsistent _
              (Distinct-map (refresh blend now) b.known (refresh-pipe now) w.distinct))

    BookStep-IsConsistent :
        {b c : AddressBook} → BookStep blend sort b c → IsConsistent b → IsConsistent c
    unfolding received_handshake deliver_handshakes
    BookStep-IsConsistent {b} (adds now p addr) w = add_pipe-IsConsistent now p addr b w
    BookStep-IsConsistent {b} {c} (receives now p h) w =
        received_from-IsConsistent (index_of_pipe p b.known) now b c w h
    BookStep-IsConsistent {b} (delivers now generated at wrote) w =
        let w' = next_handshake_epoch-IsConsistent now b w in
        if_intro IsConsistent generated (λ _. send_each-IsConsistent at wrote _ _ w') (λ _. w')

    -- With a sorting function that meets the contract of `sort.Sort`, whatever pipes are added, whatever
    -- handshakes come, and however often handshakes are sent, an address book that began empty has one
    -- entry for each pipe, marks only reachable paths as backups, and has an active path, which is that
    -- of a known pipe and reachable, exactly when a known path is reachable.
    pub new_address_book-IsConsistent :
        {b : AddressBook} → BookReach blend sort new_address_book b → IsConsistent b
    new_address_book-IsConsistent here = record { distinct = tt; backups = tt; active_state = tt }
    new_address_book-IsConsistent (next r s) =
        BookStep-IsConsistent s (new_address_book-IsConsistent r)
