-- ===== src/Listener/Registry.antt =====
-- e3x/listener.go: the sets that listeners are found in, each with its parent, down to the endpoint's.
use gogotelehash.Prelude.Map.{lookup, insert, erase, lookup-insert, lookup-erase}
use gogotelehash.Prelude.{
  ℕ, suc, ◌≡◌, refl, ap, Bool, false, Option, none, some, List, [], ◌∷◌, ◌==◌, if◌then◌else◌, sym,
  ◌∙◌, inl, inr, ==_iff, Bool-cases,
}

-- `drops` is whether `dropChannelFunc` is set; `addr_func` is what `addrFunc` answers, if it is set. A
-- list of sets is a set with its parents; the empty list is the nil pointer.
pub record ListenerSet : Type 0 where
  pub drops : Bool
  pub addr_func : Option ℕ
  pub listeners : List (ℕ × ℕ)

abbrev pub new_listener_set : ListenerSet
new_listener_set = record { drops = false; addr_func = none; listeners = [] }

abbrev pub first_some : Option ℕ → Option ℕ → Option ℕ
first_some none o = o
first_some (some a) o = some a

unfoldable pub addr : List ListenerSet → Option ℕ
addr [] = none
addr (s ∷ parents) = first_some s.addr_func (addr parents)

unfoldable pub inherit : List ListenerSet → List ListenerSet
inherit sets = new_listener_set ∷ sets

unfoldable pub get : ℕ → List ListenerSet → Option ℕ
get typ [] = none
get typ (s ∷ parents) = first_some (lookup typ s.listeners) (get typ parents)

unfoldable pub remove : ℕ → ListenerSet → ListenerSet
remove typ s = record s { listeners = erase typ s.listeners }

-- `dropChannel`: which set's function is called, counted from the set on; none if no set has one.
abbrev pub one_above : Option ℕ → Option ℕ
one_above none = none
one_above (some i) = some (suc i)

unfoldable pub drop_target : List ListenerSet → Option ℕ
drop_target [] = none
drop_target (s ∷ parents) =
    let above = drop_target parents in if s.drops then some 0 else one_above above

-- `Listen` of the new listener `l`: `none` is the panic of a type that is registered already.
abbrev pub listened : Option ℕ → ℕ → ℕ → ListenerSet → Option ListenerSet
listened (some other) typ l s = none
listened none typ l s = some (record s { listeners = insert typ l s.listeners })

unfoldable pub listen : ℕ → ℕ → ListenerSet → Option ListenerSet
listen typ l s = listened (lookup typ s.listeners) typ l s

listened_lem :
    (o : Option ℕ) (typ l : ℕ) (s t : ListenerSet)
    → listened o typ l s ≡ some t
    → (o ≡ none) × (t.listeners ≡ insert typ l s.listeners)
listened_lem (some other) typ l s t h = cc
listened_lem none typ l s t h = (refl, cc)

module _ (typ l k : ℕ) (s t : ListenerSet) (grown : t.listeners ≡ insert typ l s.listeners) where
  lookup_grown : lookup k t.listeners ≡ (if typ == k then some l else lookup k s.listeners)
  lookup_grown = ap (lookup k) grown ∙ lookup-insert typ k l s.listeners

  lookup_erased :
      lookup typ s.listeners ≡ none → lookup k (erase typ t.listeners) ≡ lookup k s.listeners
  lookup_erased free = lookup-erase typ k t.listeners ∙ elim (Bool-cases (typ == k)) [
    | inl same ↦ rw same (sym free ∙ ap (λ (i : ℕ). lookup i s.listeners) ((==_iff typ k).0 same))
    | inr other ↦ rw other (lookup_grown ∙ rw other refl)
  ]

-- A listener that was registered in a set, for which there must have been none of its type, is found
-- under its type, whatever the parents have, and all others as before; once it is taken out again,
-- the parents' listener of the type shows again, and the others are as before.
get-listen-remove :
    (typ l k : ℕ) (s t : ListenerSet) (parents : List ListenerSet)
    → listen typ l s ≡ some t
    → (lookup typ s.listeners ≡ none)
      × (get k (t ∷ parents) ≡ (if typ == k then some l else get k (s ∷ parents)))
      × (get k (remove typ t ∷ parents) ≡ get k (s ∷ parents))
unfolding listen get remove
get-listen-remove typ l k s t parents h =
    let (free, grown) = listened_lem (lookup typ s.listeners) typ l s t h in
    (
      free,
      ap (λ (o : Option ℕ). first_some o (get k parents)) (lookup_grown typ l k s t grown)
          ∙ elim (Bool-cases (typ == k)) [ inl same ↦ rw same refl | inr other ↦ rw other refl ],
      ap (λ (o : Option ℕ). first_some o (get k parents)) (lookup_erased typ l k s t grown free),
    )
