-- ===== src/Tests/Validation.antt =====
-- ValidateUser, before and after a registration.
use Prim.Native.Char.{Char, code}
use micro_go_lab.Base.{
  ℕ, ◌≡◌, ◌≢◌, inl, inr, Bool-cases, eq_iff, arith, refl, sym, ap, Bool, true, false, some, none,
  String, [], find, ◌==◌, str_eq, pos,
}
use micro_go_lab.Errors.{
  Result, ok, err, other, record_not_found, is_record_not_found, err_user_not_found,
}
use micro_go_lab.Cache.{negative_marker}
use micro_go_lab.Cache.Coherence.{IsFormat, Agrees}
use micro_go_lab.Sql.Memory.{table, select_first}
use micro_go_lab.User
use micro_go_lab.User.Rpc.{Summary, load_summary, validate_user}
use micro_go_lab.User.Validation.{
  Validates, asked, exists_of, validate_user-Validates, create_user-hidden,
}
use micro_go_lab.Order.Create.{CreateOrderRequest, create_order}
use micro_go_lab.Order
use micro_go_lab.Tests.Data.{ambient, users, users-IsService, orders}
use micro_go_lab.Tests.Infrastructure.{
  store, store-IsStore, no_users, request, registered_db, reply, registers,
}

-- A summary as a text: a sign, and the name.
abbrev text_of : Summary → Result String
text_of v = elim v.exists [
  | true ↦ ok (String.◌∷◌ "+" v.username)
  | false ↦ ok (String.◌∷◌ "-" v.username)
]

abbrev of_text : String → Result Summary
of_text String.[] = err (other "json")
of_text (String.◌∷◌ c s) = ok (record { exists = code c == 43; username = s })

abbrev first : String → ℕ
first String.[] = 0
first (String.◌∷◌ c s) = code c

summaries-IsFormat : IsFormat text_of of_text
summaries-IsFormat = record {
  reads_back = λ v b e. back v.exists v.username b e;
  is_marked = λ v b e. plain v.exists v.username b e;
}
  where
    back :
        (x : Bool) (n b : String)
        → text_of (record { exists = x; username = n }) ≡ ok b
        → of_text b ≡ ok (record { exists = x; username = n })
    back true n b e = let same : String.◌∷◌ "+" n ≡ b = cc in rw (sym same) refl
    back false n b e = let same : String.◌∷◌ "-" n ≡ b = cc in rw (sym same) refl

    apart : (c : Char) (n : String) → code c ≢ 95 → str_eq (String.◌∷◌ c n) negative_marker ≡ false
    apart c n h = elim (Bool-cases (str_eq (String.◌∷◌ c n) negative_marker)) [
      | inl marker ↦ absurd (h (ap first ((eq_iff (String.◌∷◌ c n) negative_marker).0 marker)))
      | inr plain ↦ plain
    ]

    plain :
        (x : Bool) (n b : String)
        → text_of (record { exists = x; username = n }) ≡ ok b
        → str_eq b negative_marker ≡ false
    plain true n b e =
        let same : String.◌∷◌ "+" n ≡ b = cc in rw (sym same) (apart "+" n (omega arith))
    plain false n b e =
        let same : String.◌∷◌ "-" n ≡ b = cc in rw (sym same) (apart "-" n (omega arith))

abbrev key : ℕ → String
key i = "user:validate:1"

validate_user-Validates_example :
    let after = validate_user users (some store) key text_of of_text 1 registered_db none in
    Validates 1 registered_db after.0
    × Agrees of_text (load_summary users 1 registered_db) (store.get (key 1) after.1)
validate_user-Validates_example =
    validate_user-Validates users users-IsService store key text_of of_text 1 registered_db none
      store-IsStore summaries-IsFormat tt

abbrev order : CreateOrderRequest
order = record { product_name = "Pen"; sku = "pen"; quantity = pos 3; amount = pos 300 }

abbrev empty_orders : Order.Db
empty_orders = record { orders = []; outbox = []; processed = []; known_users = [] }

create_user-hidden_example :
    let cached =
      (asked users users-IsService ambient store key text_of of_text 1 no_users none).1 in
    let later =
      asked users users-IsService ambient store key text_of of_text 1 registered_db cached in
    ((u : User.User) × (find (λ v. v.id == 1) registered_db.users ≡ some u) × (u.username ≡ "ann"))
    × (later.0 ≡ ok (record { exists = false; username = "" }))
    × (create_order orders ambient
          (λ i.
            exists_of
              (asked users users-IsService ambient store key text_of of_text i registered_db
                cached).0)
          1
          order
          empty_orders
        ≡ (err err_user_not_found, empty_orders))
unfolding users table select_first find is_record_not_found
create_user-hidden_example =
    create_user-hidden users users-IsService ambient store key text_of of_text request reply
      no_users registered_db none (other "redis: nil") record_not_found orders ambient order
      empty_orders refl refl refl refl registers
