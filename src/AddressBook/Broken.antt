-- ===== src/AddressBook/Broken.antt =====
-- e3x/exchange_address_book.go: a peer whose paths have all broken is not tried again.
use gogotelehash.AddressBook.{
  Entry, AddressBook, add_pipe, index_of_pipe, received_handshake, received_from, note_received,
  change_at, send_each, handshake_pipes, backup_pipes, deliver_handshakes, next_handshake_epoch,
  settle, refresh, judge, mark_backups, first_reachable, max_entries, active_connection,
}
use gogotelehash.AddressBook.Sorting.{Ordered, Sorts, All-perm, All-take, Ordered-take}
use gogotelehash.AddressBook.Epoch.{no_entries, behind_first, All-map_of}
use gogotelehash.AddressBook.Invariant.{change_at-All, note_received-SamePath}
use gogotelehash.Lob.Packet.{ℤ}
use gogotelehash.Prelude.{
  ℕ, suc, ◌≡◌, refl, sym, subst, inl, inr, Bool, false, Option, none, some, List, [], ◌∷◌, map,
  arith, ◌==◌, Bool-cases, length, take, All, All-map, if◌then◌else◌, if_intro,
}

-- What an exchange does with its book while no new pipe is added: handshakes come over known ones,
-- requests and answers, and handshakes are sent.
pub data HeardStep (blend : ℤ → ℤ → ℤ) (sort : List Entry → List Entry) (b : AddressBook)
    : AddressBook → Type 0 where
  hears :
      (now p addr i : ℕ)
      → index_of_pipe p b.known ≡ some i
      → HeardStep blend sort b (add_pipe now p addr b)
  receives :
      {c : AddressBook} (now p : ℕ) → received_handshake now p b ≡ some c → HeardStep blend sort b c
  delivers :
      (now : ℕ) (generated : Bool) (at : ℕ → ℕ) (wrote : ℕ → Bool)
      → HeardStep blend sort b (deliver_handshakes blend sort now generated at wrote b)

pub data HeardReach (blend : ℤ → ℤ → ℤ) (sort : List Entry → List Entry) (b : AddressBook)
    : AddressBook → Type 0 where
  here : HeardReach blend sort b b
  next :
      {c d : AddressBook}
      → HeardReach blend sort b c
      → HeardStep blend sort c d
      → HeardReach blend sort b d

abbrev IsGivenUp : Entry → Type 0
IsGivenUp e = (e.reachable ≡ false) × (e.is_backup ≡ false) × (e.sent_at ≡ 0)

record IsDead (b : AddressBook) : Type 0 where
  pub inactive : b.active ≡ none
  pub given_up : All IsGivenUp b.known

backup_pipes-none : (l : List Entry) → All IsGivenUp l → backup_pipes l ≡ []
backup_pipes-none [] h = refl
backup_pipes-none (e ∷ rest) h = rw (h.0.1, backup_pipes-none rest h.1)

first_unreachable-none :
    (l : List Entry) → All (λ e. e.reachable ≡ false) l → first_reachable l ≡ none
first_unreachable-none [] h = refl
first_unreachable-none (e ∷ rest) h = rw h.0

note_received-IsGivenUp : (now : ℕ) (e : Entry) → IsGivenUp e → IsGivenUp (note_received now e)
unfolding note_received
note_received-IsGivenUp now e h = ground arith

received_from-IsDead :
    (o : Option ℕ) (now : ℕ) (b c : AddressBook)
    → IsDead b
    → received_from o now b ≡ some c
    → IsDead c
received_from-IsDead none now b c d h = cc
received_from-IsDead (some i) now b c d h =
    let d' : IsDead (record b { known = change_at i (note_received now) b.known }) = record {
      inactive = d.inactive;
      given_up =
          change_at-All (note_received now) (note_received-SamePath now) IsGivenUp i b.known
            (note_received-IsGivenUp now) d.given_up;
    } in
    subst IsDead (cc) d'

mark_backups-IsGivenUp :
    (n : ℕ) (l : List Entry)
    → All (λ e. (e.reachable ≡ false) × (e.sent_at ≡ 0)) l
    → All IsGivenUp (mark_backups n l)
unfolding mark_backups
mark_backups-IsGivenUp n [] h = tt
mark_backups-IsGivenUp n (e ∷ rest) h =
    ((h.0.0, rw h.0.0, h.0.1), mark_backups-IsGivenUp (suc n) rest h.1)

-- A list in order whose first entry is not reachable has no reachable one.
unreachable_from_first :
    (l : List Entry) → Ordered l → first_reachable l ≡ none → All (λ e. e.reachable ≡ false) l
unreachable_from_first [] o h = tt
unreachable_from_first (e ∷ rest) o h = elim (Bool-cases e.reachable) [
  | inl up ↦ absurd (ground arith)
  | inr down ↦ (down, behind_first e rest down o.0)
]

both {ℓ} : {A : Type ℓ} (P Q : A → Type 0) (l : List A) → All P l → All Q l → All (λ x. P x × Q x) l
both P Q [] h k = tt
both P Q (x ∷ rest) h k = ((h.0, k.0), both P Q rest h.1 k.1)

module _ (blend : ℤ → ℤ → ℤ) (sort : List Entry → List Entry) (sorts : Sorts sort) where
  refresh-silent : (now : ℕ) (e : Entry) → (refresh blend now e).sent_at ≡ 0
  unfolding refresh
  refresh-silent now e = refl

  refresh-unreachable :
      (now : ℕ) (e : Entry) → IsGivenUp e → (refresh blend now e).reachable ≡ false
  unfolding refresh judge
  refresh-unreachable now e h = ground arith

  -- An epoch that leaves no active path leaves none that is probed.
  next_handshake_epoch-IsDead :
      (now : ℕ) (b : AddressBook)
      → active_connection (next_handshake_epoch blend sort now b) ≡ none
      → IsDead (next_handshake_epoch blend sort now b)
  unfolding next_handshake_epoch settle active_connection
  next_handshake_epoch-IsDead now b h = elim (Bool-cases (length b.known == 0)) [
    | inl empty ↦ rw empty (record {
      inactive = refl;
      given_up = subst (All IsGivenUp) (sym (no_entries b.known (ground arith))) tt;
    })
    | inr filled ↦
        let judged = map (refresh blend now) b.known in
        let kept = take max_entries (sort judged) in
        let h' : first_reachable kept ≡ none = rw filled at h in
        let silent =
          All-take (λ e. e.sent_at ≡ 0) max_entries (sort judged)
            (All-perm _ (sorts.rearranges judged) (All-map_of _ b.known (refresh-silent now))) in
        let still =
          unreachable_from_first kept
            (Ordered-take max_entries (sort judged) (sorts.ordered judged)) h' in
        rw filled (record {
          inactive = h';
          given_up = mark_backups-IsGivenUp 0 kept (both _ _ kept still silent);
        })
  ]

  -- An epoch leaves a given up path as it is.
  next_handshake_epoch-keeps_IsDead :
      (now : ℕ) (b : AddressBook) → IsDead b → IsDead (next_handshake_epoch blend sort now b)
  unfolding next_handshake_epoch settle
  next_handshake_epoch-keeps_IsDead now b d =
      let judged = map (refresh blend now) b.known in
      let down : All (λ e. (e.reachable ≡ false) × (e.sent_at ≡ 0)) judged =
        both _ _ judged (unreachable_judged now b.known d.given_up)
          (All-map_of _ b.known (refresh-silent now)) in
      let kept = take max_entries (sort judged) in
      let down' =
        All-take _ max_entries (sort judged) (All-perm _ (sorts.rearranges judged) down) in
      if_intro IsDead (length b.known == 0)
        (λ empty. record { inactive = refl; given_up = d.given_up })
        (λ filled. record {
          inactive = first_unreachable-none kept (All-map kept (λ e h. h.0) down');
          given_up = mark_backups-IsGivenUp 0 kept down';
        })
    where
      unreachable_judged :
          (now : ℕ) (l : List Entry)
          → All IsGivenUp l
          → All (λ e. e.reachable ≡ false) (map (refresh blend now) l)
      unreachable_judged now [] h = tt
      unreachable_judged now (e ∷ rest) h =
          (refresh-unreachable now e h.0, unreachable_judged now rest h.1)

  send_each-none :
      (generated : Bool) (at : ℕ → ℕ) (wrote : ℕ → Bool) (b : AddressBook)
      → IsDead b
      → IsDead (if generated then send_each at wrote (handshake_pipes b) b else b)
  unfolding handshake_pipes send_each
  send_each-none generated at wrote b d =
      if_intro IsDead generated (λ _. rw (backup_pipes-none b.known d.given_up) d) (λ _. d)

  HeardStep-IsDead : {b c : AddressBook} → HeardStep blend sort b c → IsDead b → IsDead c
  unfolding add_pipe received_handshake deliver_handshakes
  HeardStep-IsDead (hears now p addr i h) d = rw h d
  HeardStep-IsDead {b} {c} (receives now p h) d =
      received_from-IsDead (index_of_pipe p b.known) now b c d h
  HeardStep-IsDead {b} (delivers now generated at wrote) d =
      send_each-none generated at wrote _ (next_handshake_epoch-keeps_IsDead now b d)

  -- With a sorting function that meets the contract of `sort.Sort`: once an epoch leaves no active
  -- path, then as long as no new pipe is added there is none, and no pipe that a handshake is sent to,
  -- whatever epochs pass and whatever requests and answers come over the known pipes.
  pub broken_forever :
      (now : ℕ) (b : AddressBook) {c : AddressBook}
      → active_connection (next_handshake_epoch blend sort now b) ≡ none
      → HeardReach blend sort (next_handshake_epoch blend sort now b) c
      → (active_connection c ≡ none) × (handshake_pipes c ≡ [])
  unfolding active_connection handshake_pipes
  broken_forever now b {c} h r = let d = go r in (d.inactive, backup_pipes-none c.known d.given_up)
    where
      go :
          {c : AddressBook}
          → HeardReach blend sort (next_handshake_epoch blend sort now b) c
          → IsDead c
      go here = next_handshake_epoch-IsDead now b h
      go (next r s) = HeardStep-IsDead s (go r)
