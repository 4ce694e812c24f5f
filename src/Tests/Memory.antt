-- ===== src/Tests/Memory.antt =====
-- Libraries that keep everything in memory and never fail, with the laws that the theorems ask for.
use mathlib.Core.List.{Mem, mem-cons, mem-cons_self, mem-cons_of_mem, not-mem-nil}
use mathlib.Core.Logic.Or
use mathlib.Core.Path.{subst}
use text.Mathlib.Text.{starts_with}
use challenge_service.Prelude.{
  ℕ, String, ◌≡◌, ◌≢◌, ◌↔◌, refl, ap, ◌∙◌, Bool, true, Option, none, some, List, [], ◌∷◌, ◌++◌,
  arith, ◌==◌, eq_iff, eq_refl, if◌then◌else◌, inl, inr, Bool-cases, Option-cases,
}
use challenge_service.Prelude.Int.{ℤ, pos}
use challenge_service.GoMap.{find, replace, without, find-replace, find-without}
use challenge_service.Exec.{Result, value, error}
use challenge_service.Model.{ChallengeDocument}
use challenge_service.RedisClient
use challenge_service.MongoClient
use challenge_service.MongoClient.{Filter, text_is, SetField, set_fields, set_in}
use challenge_service.RedisBoard.{RedisBoard}
use challenge_service.Wss.Socket
use challenge_service.Wss.Json.{Message}
use challenge_service.World.{Libraries}

abbrev pub Table : Type 0
Table = List (String × ChallengeDocument)

unfoldable pub keys_of : String → Table → List String
keys_of p [] = []
keys_of p ((k, _) ∷ t) = let rest = keys_of p t in if starts_with k p then k ∷ rest else rest

abbrev pub redis : RedisClient.RedisClient
redis = record {
  Db = Table;
  Bytes = ChallengeDocument;
  get = λ k t. (value (find k t), t);
  set = λ k d t. (value tt, replace k d t);
  del = λ k t. (value tt, without k t);
  keys = λ p t. (value (keys_of p t), t);
  marshal = λ d. value d;
  unmarshal = λ d. value d;
}

find-cons_ne :
    (k j : String) (d : ChallengeDocument) (t : Table)
    → find k t ≢ none
    → find k ((j, d) ∷ t) ≢ none
unfolding find
find-cons_ne k j d t h e = ground (arith, h, e)

keys_of_sound :
    (p k : String) (t : Table) → Mem k (keys_of p t) → (starts_with k p ≡ true) × (find k t ≢ none)
unfolding keys_of find
keys_of_sound p k [] m = absurd (not-mem-nil m)
keys_of_sound p k ((j, d) ∷ t) m =
    let kept = λ (b : Bool). Mem k (if b then j ∷ keys_of p t else keys_of p t) in
    let later : Mem k (keys_of p t) → (starts_with k p ≡ true) × (find k ((j, d) ∷ t) ≢ none) =
      λ m'. let (s, there) = keys_of_sound p k t m' in (s, find-cons_ne k j d t there) in
    elim (Bool-cases (starts_with j p)) [
      | inl b ↦
          Or.elim (hlevel) (mem-cons.0 (subst kept b m))
            (λ e. (ap (λ x. starts_with x p) e ∙ b, λ gone. ground (arith, e, eq_iff j k, gone)))
            later
      | inr b ↦ later (subst kept b m)
    ]

keys_of-complete :
    (p k : String) (t : Table) → starts_with k p ≡ true → find k t ≢ none → Mem k (keys_of p t)
unfolding keys_of find
keys_of-complete p k [] s h = absurd (h refl)
keys_of-complete p k ((j, d) ∷ t) s h = elim (Bool-cases (j == k)) [
  | inl e ↦
      let same = (eq_iff j k).0 e in rw (ap (λ x. starts_with x p) same ∙ s, same) (mem-cons_self)
  | inr e ↦ elim (Bool-cases (starts_with j p)) [
    | inl b ↦
        rw b (mem-cons_of_mem j (keys_of-complete p k t s (λ gone. h (ground (arith, e, gone)))))
    | inr b ↦ rw b (keys_of-complete p k t s (λ gone. h (ground (arith, e, gone))))
  ]
]

abbrev listed : Result (List String) → List String
listed (value l) = l
listed (error _) = []

pub keys_laws :
    (p : String) (t : Table) (l : List String)
    → value (keys_of p t) ≡ value l
    → (k : String) → Mem k l ↔ ((starts_with k p ≡ true) × (find k t ≢ none))
keys_laws p t l e k =
    subst (λ l. Mem k l ↔ ((starts_with k p ≡ true) × (find k t ≢ none))) (ap listed e)
      (keys_of_sound p k t, λ h. keys_of-complete p k t h.0 h.1)

pub find-replace_same :
    (k : String) (d : ChallengeDocument) (t : Table) → find k (replace k d t) ≡ some d
find-replace_same k d t = ground (arith, find-replace k k d t, eq_refl k)

pub find-replace_ne :
    (k j : String) (d : ChallengeDocument) (t : Table) → k ≢ j → find j (replace k d t) ≡ find j t
find-replace_ne k j d t ne = ground (arith, find-replace k j d t, eq_iff k j)

pub find-without_same : (k : String) (t : Table) → find k (without k t) ≡ none
find-without_same k t = ground (arith, find-without k k t, eq_refl k)

pub find-without_ne : (k j : String) (t : Table) → k ≢ j → find j (without k t) ≡ find j t
find-without_ne k j t ne = ground (arith, find-without k j t, eq_iff k j)

abbrev pub redis_laws : RedisClient.Laws redis
redis_laws = record {
  peek = λ t k. find k t;
  Up = λ t. Unit;
  peek-get = λ k t j. refl;
  get_lem = λ k t. refl;
  peek-keys = λ p t j. refl;
  keys_lem = keys_laws;
  peek-set = λ k d t e. find-replace_same k d t;
  peek-set_cases = λ k d t. inl (find-replace_same k d t);
  peek-set_ne = λ k d t j ne. find-replace_ne k j d t ne;
  peek-del = λ k t e. find-without_same k t;
  peek-del_cases = λ k t. inl (find-without_same k t);
  peek-del_ne = λ k t j ne. find-without_ne k j t ne;
  get_up = λ k t u. (refl, tt);
  set_up = λ k d t u. (refl, tt);
  del_up = λ k t u. (refl, tt);
  keys_up = λ p t u. (keys_of p t, refl, tt);
  marshal_lem = λ d. (d, refl, refl);
}

-- what a search finds; only searches by one text are used here
abbrev pub selected : Filter → Table → Option ChallengeDocument
selected (text_is _ id) t = find id t
selected _ t = none

abbrev pub put : Option ChallengeDocument → List SetField → String → Table → Table
put none fs id t = t
put (some d) fs id t = replace id (set_fields fs d) t

abbrev pub updated : Filter → List SetField → Table → Table
updated (text_is _ id) fs t = put (find id t) fs id t
updated _ fs t = t

abbrev pub mongo : MongoClient.MongoClient
mongo = record {
  Coll = Table;
  find_one = λ f t. (value (selected f t), t);
  insert_one = λ d t. (value tt, replace d.challenge_id d t);
  update_one = λ f fs t. (value tt, updated f fs t);
  find = λ f o t. (value [], t);
}

pub find-put :
    (id : String) (fs : List SetField) (t : Table) (j : String)
    → find j (put (find id t) fs id t) ≡ (if id == j then set_in fs (find id t) else find j t)
find-put id fs t j = elim (Option-cases (find id t)) [
  | inl e ↦ ground (arith, e, eq_iff id j)
  | inr (d, e) ↦ ground (arith, e, find-replace id j (set_fields fs d) t)
]

abbrev pub mongo_laws : MongoClient.Laws mongo
mongo_laws = record {
  held = λ t id. find id t;
  Up = λ t. Unit;
  find_one_up = λ id t u. (refl, tt);
  held-find_one = λ f t j. refl;
  insert_one_up = λ d t u new. (refl, tt, λ j. find-replace d.challenge_id j d t);
  update_one_up = λ id fs t u. (refl, tt, find-put id fs t);
}

-- One table of scores for all boards.
abbrev pub board : RedisBoard
board = record {
  Float = ℤ;
  of_int = λ n. n;
  to_int = λ n. n;
  Board = String;
  Ext = List (String × ℤ);
  new = λ c x. (value c.namespace, x);
  close = λ b x. (value tt, x);
  add_user = λ b u e s x. (value tt, replace u s x);
  get_top_k_global = λ b x. (value x, x);
  get_user_leaderboard_data = λ b u x. (value (pos 0, pos 0), x);
}

abbrev pub sockets : Socket.Sockets
sockets = record {
  Net = List (ℕ × Message);
  write_json = λ conn m net. (value tt, net ++ (conn, m) ∷ []);
  close = λ conn net. (value tt, net);
}

abbrev pub socket_laws : Socket.Laws sockets
socket_laws = record {
  sent = λ net. net;
  Open = λ conn net. Unit;
  write_json_open = λ conn m net o. (refl, refl);
  write_json-Open = λ conn j m net o. tt;
  sent-close = λ conn net. refl;
}

abbrev pub libraries : Libraries
libraries = record { redis = redis; mongo = mongo; board = board; sockets = sockets }
