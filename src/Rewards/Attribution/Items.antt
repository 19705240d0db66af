-- ===== src/Rewards/Attribution/Items.antt =====
-- The attribution against the items that the events came from.
use pdexplorer.Prelude.{ℕ, suc, ◌≡◌, refl, ap, ◌∙◌, Option, List, [], ◌∷◌, ◌++◌, map, get_elem?}
use pdexplorer.Rewards.Attribution.{
  BatchCall, SequenceEntry, delimiter, reward_event, Attributed, call_or, attribute_from,
  attribute_batch_rewards,
}

-- The events of a batch whose items paid these rewards, each item followed by its delimiter.
abbrev pub sequence_of : List (List ℕ) → List SequenceEntry
sequence_of [] = []
sequence_of (rewards ∷ items) = map reward_event rewards ++ delimiter ∷ sequence_of items

abbrev pub attributed : List (Option BatchCall) → ℕ → ℕ → Attributed
attributed calls item r = record { ref = r; payout_of = call_or (get_elem? calls item) }

-- Each reward with the call at the place of its item.
abbrev pub paid_by_items : List (Option BatchCall) → ℕ → List (List ℕ) → List Attributed
paid_by_items calls item [] = []
paid_by_items calls item (rewards ∷ items) =
    map (attributed calls item) rewards ++ paid_by_items calls (suc item) items

attribute_from-item :
    (calls : List (Option BatchCall)) (item : ℕ) (rewards : List ℕ) (rest : List SequenceEntry)
    → attribute_from calls item (map reward_event rewards ++ delimiter ∷ rest)
      ≡ map (attributed calls item) rewards ++ attribute_from calls (suc item) rest
unfolding attribute_from
attribute_from-item calls item [] rest = refl
attribute_from-item calls item (r ∷ rewards) rest =
    ap (attributed calls item r ∷◌) (attribute_from-item calls item rewards rest)

attribute_from-items :
    (calls : List (Option BatchCall)) (item : ℕ) (items : List (List ℕ))
    → attribute_from calls item (sequence_of items) ≡ paid_by_items calls item items
unfolding attribute_from
attribute_from-items calls item [] = refl
attribute_from-items calls item (rewards ∷ items) =
    attribute_from-item calls item rewards (sequence_of items)
    ∙ ap (map (attributed calls item) rewards ++◌) (attribute_from-items calls (suc item) items)

-- Where each item of a batch is followed by one delimiter, every reward is attributed to the call at
-- the place of its item, in order.
pub attribute_batch_rewards_lem :
    (calls : List (Option BatchCall)) (items : List (List ℕ))
    → attribute_batch_rewards calls (sequence_of items) ≡ paid_by_items calls 0 items
unfolding attribute_batch_rewards
attribute_batch_rewards_lem calls items = attribute_from-items calls 0 items
