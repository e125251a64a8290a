-- ===== src/Memory/Sample.antt =====
-- A small Redis server that meets the laws of `Redis`, settings and a fresh manager, for the tests.
use Prim.Native.String.{String}
use text.Mathlib.Text.{◌==◌}
use text.Mathlib.TextEquality.{eq_iff}
use wa_graph_rag_backend.Prelude.{
  ℕ, zero, suc, ◌+◌, leb, ltb, arith, ◌-◌, ◌≡◌, ◌≢◌, inl, inr, refl, ap, ◌∙◌, true, false, none,
  List, [], ◌∷◌, ◌++◌, length, drop, if◌then◌else◌, Bool-cases,
}
use wa_graph_rag_backend.Prelude.Int.{ℤ, pos, negsuc, ◌-ℤ◌, ◌+ℤ◌}
use wa_graph_rag_backend.Memory.{Entry, entry, last_items, Redis, Settings, redis, Manager}

abbrev pub put : (String → List Entry) → String → List Entry → String → List Entry
put s k v j = if j == k then v else s j

pub put_self : (s : String → List Entry) (k : String) (v : List Entry) → put s k v k ≡ v
put_self s k v = rw ((eq_iff k k).1 refl)

pub put_other :
    (s : String → List Entry) (k j : String) (v : List Entry) → j ≢ k → put s k v j ≡ s j
put_other s k j v ne = elim (Bool-cases (j == k)) [
  | inl same ↦ absurd (ne ((eq_iff j k).0 same))
  | inr differs ↦ rw differs
]

-- The items from a place on.
abbrev pub from : ℤ → List Entry → List Entry
from (pos n) xs = drop n xs
from (negsuc n) xs = drop (length xs - suc n) xs

pub from_end : (n : ℕ) (xs : List Entry) → from (pos 0 -ℤ pos n) xs ≡ last_items n xs
unfolding ◌-ℤ◌ ◌+ℤ◌
from_end zero xs = refl
from_end (suc n) xs =
    let low : leb (0 + suc n) 0 ≡ false = ground arith in
    let same : 0 + suc n - 0 - 1 ≡ n = omega arith in
    ap (λ b. from (if b then pos (0 - (0 + suc n)) else negsuc (0 + suc n - 0 - 1)) xs) low
    ∙ ap (λ m. from (negsuc m) xs) same

abbrev pub small_redis : Redis
small_redis = record {
  Server = String → List Entry;
  Item = Entry;
  up = λ s. true;
  content = λ s k. s k;
  rpush = λ k v s. put s k (s k ++ (v ∷ []));
  ltrim = λ k a b s. put s k (from a (s k));
  expire = λ k t s. if ltb 0 t then s else put s k [];
  delete = λ k s. put s k [];
  dumps = λ e. e;
  loads = entry;
  content-rpush = λ k v s. put_self s k (s k ++ (v ∷ []));
  content-rpush_other = λ k j v s ne. put_other s k j (s k ++ (v ∷ [])) ne;
  content-ltrim = λ k n s. put_self s k (from (pos 0 -ℤ pos n) (s k)) ∙ from_end n (s k);
  content-ltrim_other = λ k j a b s ne. put_other s k j (from a (s k)) ne;
  content-expire = λ k t s later.
      let lasting : ltb 0 t ≡ true = ground arith in
      ap (λ b. (if b then s else put s k []) k) lasting;
  content-expire_zero = λ k s. put_self s k [];
  content-expire_other = λ k j t s ne. elim (Bool-cases (ltb 0 t)) [
    | inl lasting ↦ ap (λ b. (if b then s else put s k []) j) lasting
    | inr gone ↦ ap (λ b. (if b then s else put s k []) j) gone ∙ put_other s k j [] ne
  ];
  content-delete = λ k s. put_self s k [];
  content-delete_other = λ k j s ne. put_other s k j [] ne;
  loads-dumps = λ e. refl;
}

abbrev pub one_turn : Settings
one_turn = record { window_size = 1; ttl = 86400; prefix = "uchenab:session:" }

abbrev pub new_manager : Manager small_redis
new_manager = record {
  backend = redis;
  redis_checked = false;
  connected = false;
  histories = λ sid. none;
  server = λ k. [];
}
