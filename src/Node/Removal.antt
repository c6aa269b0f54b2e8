-- ===== src/Node/Removal.antt =====
-- Removing a user from the configuration, as the index of the inbounds' users shows it.
use remnawave_node_go.Base.{
  ℕ, ◌+◌, ◌≡◌, refl, sym, ap, ◌∙◌, Bool, true, false, not, ◌&&◌, ◌||◌, List, [], ◌∷◌, ◌++◌, map,
  arith, Text, codes, text_eq, text_eq_iff, is_empty, if◌then◌else◌, Bool-cases, inl, inr,
}
use remnawave_node_go.Base.Json.{
  Json, null, array, object, Items, no_items, item, Fields, no_fields, field, field_of, as_string,
  objects_of, as_object_slice, first_non_empty,
}
use remnawave_node_go.Statname.{user_id}
use remnawave_node_go.Runtime.Types.{InboundUser, Runtime, value_at, set}
use remnawave_node_go.Runtime.Inbounds.{
  Users, normalize_sing_box_type, add_user, index_users, index_inbounds, extract_sing_box_inbounds,
  reindex,
}
use remnawave_node_go.Runtime.Core.{sing_box, set_sing_box_config, inbound_users_of}
use remnawave_node_go.Runtime.Seen.{value_at-set}
use remnawave_node_go.Node.Config.{
  set_field, update_field, update_objects, update_array, to_any_slice, name_of, users_of,
  inbound_tag, with_users, without_user, remove_sing_box_user,
}
use remnawave_node_go.Node.Users.{with_running, remove_user_everywhere}

-- How often the list has a user with the id.
unfoldable pub count_user : Text → List InboundUser → ℕ
count_user id [] = 0
count_user id (u ∷ us) = (if text_eq u.user_id id then 1 else 0) + count_user id us

-- How many users of an inbound have the id.
unfoldable pub count_named : Text → List Fields → ℕ
count_named id [] = 0
count_named id (u ∷ us) =
    (if not (is_empty (name_of u)) && text_eq (user_id (name_of u)) id then 1 else 0)
    + count_named id us

abbrev protocol_of : Fields → Text
protocol_of inbound = normalize_sing_box_type (as_string (field_of inbound (codes "type")))

abbrev is_indexed : Fields → Text → Bool
is_indexed inbound tag =
    not (is_empty (inbound_tag inbound) || is_empty (protocol_of inbound))
    && text_eq (inbound_tag inbound) tag

-- How many users with the id the inbounds with the tag have.
unfoldable pub count_in : Text → Text → List Fields → ℕ
count_in id tag [] = 0
count_in id tag (i ∷ is) =
    (if is_indexed i tag then count_named id (users_of i) else 0) + count_in id tag is

count_user-append :
    (id : Text) (us vs : List InboundUser)
    → count_user id (us ++ vs) ≡ count_user id us + count_user id vs
unfolding count_user
count_user-append id [] vs = omega arith
count_user-append id (u ∷ us) vs = omega (arith, count_user-append id us vs)

count_user-add_user :
    (id tag at : Text) (target : Users) (u : InboundUser)
    → count_user id (value_at [] (add_user target at u) tag)
      ≡ count_user id (value_at [] target tag)
        + (if text_eq at tag && text_eq u.user_id id then 1 else 0)
unfolding add_user
count_user-add_user id tag at target u =
    let put = value_at-set [] target at tag (value_at [] target at ++ u ∷ []) in
    elim (Bool-cases (text_eq at tag)) [
      | inl same ↦
          let here : at ≡ tag = (text_eq_iff at tag).0 same in
          ap (count_user id) put
          ∙ simp same (
              count_user-append id (value_at [] target at) (u ∷ [])
              ∙ ap (λ (x : Text). count_user id (value_at [] target x) + count_user id (u ∷ []))
                  here
              ∙ unfold count_user in omega arith)
      | inr other ↦ ap (count_user id) put ∙ simp other (omega arith)
    ]

count_user-index_users :
    (id tag at protocol : Text) (us : List Fields) (target : Users)
    → count_user id (value_at [] (index_users at protocol us target) tag)
      ≡ count_user id (value_at [] target tag) + (if text_eq at tag then count_named id us else 0)
unfolding index_users count_named name_of
count_user-index_users id tag at protocol [] target = ground arith
count_user-index_users id tag at protocol (u ∷ us) target =
    let name =
      first_non_empty (as_string (field_of u (codes "name")))
        (as_string (field_of u (codes "email"))) in
    let user : InboundUser = record { user_id = user_id name; protocol = protocol; tag = at } in
    elim (Bool-cases (is_empty name)) [
      | inl blank ↦ simp blank (count_user-index_users id tag at protocol us target ∙ ground arith)
      | inr named ↦
          let rest = count_user-index_users id tag at protocol us (add_user target at user) in
          let here = count_user-add_user id tag at target user in
          simp named (rest ∙ ground (arith, here))
    ]

count_user-index_inbounds :
    (id tag : Text) (is : List Fields) (target : Users) (kinds : List (Text × Text))
    → count_user id (value_at [] (index_inbounds is target kinds).0 tag)
      ≡ count_user id (value_at [] target tag) + count_in id tag is
unfolding index_inbounds count_in
count_user-index_inbounds id tag [] target kinds = omega arith
count_user-index_inbounds id tag (i ∷ is) target kinds =
    elim (Bool-cases (is_empty (inbound_tag i) || is_empty (protocol_of i))) [
      | inl skipped ↦ simp skipped (count_user-index_inbounds id tag is target kinds ∙ omega arith)
      | inr indexed ↦
          let next = index_users (inbound_tag i) (protocol_of i) (users_of i) target in
          let rest =
            count_user-index_inbounds id tag is next (set kinds (inbound_tag i) (protocol_of i)) in
          let here =
            count_user-index_users id tag (inbound_tag i) (protocol_of i) (users_of i) target in
          simp indexed (rest ∙ omega (arith, here))
    ]

field_of-set_field :
    (fs : Fields) (k j : Text) (v : Json)
    → field_of (set_field fs k v) j ≡ (if text_eq k j then v else field_of fs j)
unfolding set_field field_of
field_of-set_field no_fields k j v = refl
field_of-set_field (field i w fs) k j v =
    let ih = field_of-set_field fs k j v in
    elim (Bool-cases (text_eq i k)) [
      | inl same ↦
          let as_k : text_eq i j ≡ text_eq k j =
            ap (λ (x : Text). text_eq x j) ((text_eq_iff i k).0 same) in
          simp (same, as_k)
            (elim (Bool-cases (text_eq k j)) [
              | inl here ↦ simp here refl
              | inr there ↦ simp there refl
            ])
      | inr differ ↦ elim (Bool-cases (text_eq k j)) [
        | inl here ↦
            let away : text_eq i j ≡ false =
              ap (text_eq i) (sym ((text_eq_iff k j).0 here)) ∙ differ in
            simp (differ, away) (ih)
        | inr there ↦ elim (Bool-cases (text_eq i j)) [
          | inl hit ↦ simp (differ, there, hit) refl
          | inr miss ↦ simp (differ, miss) ih
        ]
      ]
    ]

field_of-update_field :
    (fs : Fields) (k : Text) (f : Json → Json)
    → f null ≡ null
    → field_of (update_field fs k f) k ≡ f (field_of fs k)
unfolding update_field field_of
field_of-update_field no_fields k f h = sym h
field_of-update_field (field j v fs) k f h = elim (Bool-cases (text_eq j k)) [
  | inl here ↦ simp here refl
  | inr there ↦ simp there (field_of-update_field fs k f h)
]

as_object_slice-update_array :
    (f : Fields → Fields) (v : Json)
    → as_object_slice (update_array f v) ≡ map f (as_object_slice v)
unfolding as_object_slice update_array objects_of update_objects
as_object_slice-update_array f (array is) = go is
  where
    go : (is : Items) → objects_of (update_objects f is) ≡ map f (objects_of is)
    go no_items = refl
    go (item (object fs) is) = ap (λ (l : List Fields). f fs ∷ l) (go is)
    go (item v is) = go is
as_object_slice-update_array f v = refl

objects_of-to_any_slice : (us : List Fields) → objects_of (to_any_slice us) ≡ us
unfolding objects_of to_any_slice
objects_of-to_any_slice [] = refl
objects_of-to_any_slice (u ∷ us) = ap (λ (l : List Fields). u ∷ l) (objects_of-to_any_slice us)

-- Only the users of an inbound are replaced.
users_of-with_users : (i : Fields) (us : List Fields) → users_of (with_users i us) ≡ us
unfolding text_eq as_object_slice
users_of-with_users i us =
    ap as_object_slice
      (field_of-set_field i (codes "users") (codes "users") (array (to_any_slice us)))
    ∙ objects_of-to_any_slice us

field_of-with_users :
    (i : Fields) (us : List Fields) (k : Text)
    → text_eq (codes "users") k ≡ false
    → field_of (with_users i us) k ≡ field_of i k
field_of-with_users i us k apart =
    field_of-set_field i (codes "users") k (array (to_any_slice us)) ∙ simp apart refl

is_indexed-with_users :
    (i : Fields) (us : List Fields) (tag : Text)
    → is_indexed (with_users i us) tag ≡ is_indexed i tag
unfolding text_eq
is_indexed-with_users i us tag =
    let tags = field_of-with_users i us (codes "tag") refl in
    let types = field_of-with_users i us (codes "type") refl in simp (tags, types) refl

count_named-without_user :
    (id username : Text) (us : List Fields)
    → count_named id (without_user username us)
      ≡ (if text_eq username id then 0 else count_named id us)
unfolding count_named without_user
count_named-without_user id username [] = ground arith
count_named-without_user id username (u ∷ us) =
    let ih = count_named-without_user id username us in
    elim (Bool-cases (text_eq (user_id (name_of u)) username)) [
      | inl same ↦
          let as_id : text_eq (user_id (name_of u)) id ≡ text_eq username id =
            ap (λ (x : Text). text_eq x id) ((text_eq_iff (user_id (name_of u)) username).0 same) in
          simp same (ground (arith, ih, as_id))
      | inr differ ↦ elim (Bool-cases (text_eq username id)) [
        | inl here ↦
            let away : text_eq (user_id (name_of u)) id ≡ false =
              ap (text_eq (user_id (name_of u))) (sym ((text_eq_iff username id).0 here))
              ∙ differ in
            simp differ (ground (arith, ih, away, here))
        | inr there ↦ simp differ (ground (arith, ih, there))
      ]
    ]

abbrev pub without : Text → Fields → Fields
without username i = with_users i (without_user username (users_of i))

count_in-without :
    (id tag username : Text) (is : List Fields)
    → count_in id tag (map (without username) is)
      ≡ (if text_eq username id then 0 else count_in id tag is)
unfolding count_in
count_in-without id tag username [] = ground arith
count_in-without id tag username (i ∷ is) =
    let left = without_user username (users_of i) in
    let ih = count_in-without id tag username is in
    let shown = is_indexed-with_users i left tag in
    let us =
      ap (count_named id) (users_of-with_users i left)
      ∙ count_named-without_user id username (users_of i) in
    simp (shown, us) (ground (arith, ih))

count_user-reindex :
    (id tag : Text) (config : Fields) (r : Runtime)
    → count_user id (inbound_users_of tag (reindex config r))
      ≡ count_in id tag (as_object_slice (field_of config (codes "inbounds")))
unfolding inbound_users_of reindex extract_sing_box_inbounds
count_user-reindex id tag config r =
    count_user-index_inbounds id tag (as_object_slice (field_of config (codes "inbounds"))) [] []
    ∙ unfold count_user value_at in omega arith

inbounds-remove_sing_box_user :
    (username : Text) (config : Fields)
    → as_object_slice (field_of (remove_sing_box_user username config) (codes "inbounds"))
      ≡ map (without username) (as_object_slice (field_of config (codes "inbounds")))
unfolding remove_sing_box_user
inbounds-remove_sing_box_user username config =
    ap as_object_slice (
      field_of-update_field config (codes "inbounds") (update_array (without username))
        (unfold update_array in refl))
    ∙ as_object_slice-update_array (without username) (field_of config (codes "inbounds"))

-- Where sing-box runs, removing a user everywhere leaves no user with the id in the index of any
-- inbound, and of every other id as many as the configuration had.
pub remove_user_everywhere-count :
    (username : Text) (r : Runtime) (id tag : Text)
    → text_eq r.running sing_box ≡ true
    → count_user id (inbound_users_of tag (remove_user_everywhere username r).0) ≡ (
        if text_eq username id
        then 0
        else count_user id (inbound_users_of tag (reindex r.sing_box_config r)))
unfolding remove_user_everywhere with_running set_sing_box_config
remove_user_everywhere-count username r id tag on = simp on (
    count_user-reindex id tag (remove_sing_box_user username r.sing_box_config) _
    ∙ ap (count_in id tag) (inbounds-remove_sing_box_user username r.sing_box_config)
    ∙ count_in-without id tag username _
    ∙ simp (count_user-reindex id tag r.sing_box_config r) refl)
