-- ===== src/Repository/ChatHistory/Recent.antt =====
-- What a history remembers.
use ai_backend_api.Base.{
  ℕ, zero, suc, ◌-◌, ◌≤◌, some, List, [], ◌∷◌, ◌++◌, map, take, drop, length, append_assoc,
  length-append, length-map, append-nil, All, length-drop, take-append-drop, ◌≡◌, refl, sym, ap,
  ◌∙◌, arith, dec_lt,
}
use ai_backend_api.Base.Text.{text_eq_iff}
use ai_backend_api.Base.Dict.{get-put}
use ai_backend_api.Entity.Values.{UserId}
use ai_backend_api.Entity.Chat.{ChatMessage}
use ai_backend_api.Repository.ChatHistory.{
  Codec, Lists, history_key, list_at, last, lrange_last, save_message, parse_all, get_history,
  max_history_size,
}

module _ {A : Type 0} where
  last-append : (n : ℕ) (xs ys : List A) → n ≤ length ys → last n (xs ++ ys) ≡ last n ys
  unfolding last
  last-append n [] ys h = refl
  last-append n (x ∷ xs) ys h =
      let e : suc (length (xs ++ ys)) - n ≡ suc (length (xs ++ ys) - n) =
        omega (arith, length-append xs ys, h) in
      rw e (last-append n xs ys h)

  -- The items that `last n` leaves out do not matter to what comes after.
  last-last-append : (n : ℕ) (xs ys : List A) → last n (last n xs ++ ys) ≡ last n (xs ++ ys)
  unfolding last
  last-last-append n xs ys = elim (dec_lt (length xs) n) [
    | yes short ↦ let e : length xs - n ≡ 0 = omega (arith, short) in rw e refl
    | no long ↦
        let k = length xs - n in
        let enough : n ≤ length (drop k xs ++ ys) =
          omega (arith, length-append (drop k xs) ys, length-drop k xs, long) in
        sym (last-append n (take k xs) (drop k xs ++ ys) enough)
        ∙ ap (last n) (
            sym (append_assoc (take k xs) (drop k xs) ys)
            ∙ ap (λ l. l ++ ys) (take-append-drop k xs))
  ]

  last-last : (m n : ℕ) (xs : List A) → m ≤ n → last m (last n xs) ≡ last m xs
  unfolding last
  last-last m n xs h = elim (dec_lt (length xs) n) [
    | yes short ↦ let e : length xs - n ≡ 0 = omega (arith, short) in rw e refl
    | no long ↦
        let k = length xs - n in
        let enough : m ≤ length (drop k xs) = omega (arith, length-drop k xs, long, h) in
        sym (last-append m (take k xs) (drop k xs) enough) ∙ ap (last m) (take-append-drop k xs)
  ]

module _ {A B : Type 0} (f : A → B) where
  drop-map : (n : ℕ) (xs : List A) → drop n (map f xs) ≡ map f (drop n xs)
  drop-map zero xs = refl
  drop-map (suc n) [] = refl
  drop-map (suc n) (x ∷ xs) = drop-map n xs

  last-map : (n : ℕ) (xs : List A) → last n (map f xs) ≡ map f (last n xs)
  unfolding last
  last-map n xs = ap (λ k. drop (k - n) (map f xs)) (length-map xs f) ∙ drop-map (length xs - n) xs

module _ (codec : Codec) (user : UserId) where
  -- Messages saved one after the other.
  unfoldable pub save_all : List ChatMessage → Lists → Lists
  save_all [] lists = lists
  save_all (m ∷ ms) lists = save_all ms (save_message codec user m lists)

  list_at-save_message :
      (m : ChatMessage) (lists : Lists)
      → list_at (history_key user) (save_message codec user m lists)
        ≡ last max_history_size (list_at (history_key user) lists ++ (codec.dumps m ∷ []))
  unfolding list_at save_message
  list_at-save_message m lists =
      let key = history_key user in
      let kept = last max_history_size (list_at key lists ++ (codec.dumps m ∷ [])) in
      rw (get-put lists key kept key, (text_eq_iff key key).1 refl) refl

  last-save_all :
      (ms : List ChatMessage) (lists : Lists)
      → last max_history_size (list_at (history_key user) (save_all ms lists))
        ≡ last max_history_size (list_at (history_key user) lists ++ map codec.dumps ms)
  unfolding save_all
  last-save_all [] lists =
      ap (last max_history_size) (sym (append-nil (list_at (history_key user) lists)))
  last-save_all (m ∷ ms) lists =
      let before = list_at (history_key user) lists in
      last-save_all ms (save_message codec user m lists)
      ∙ (ap (λ l. last max_history_size (l ++ map codec.dumps ms)) (list_at-save_message m lists)
          ∙ (last-last-append max_history_size (before ++ (codec.dumps m ∷ [])) (map codec.dumps ms)
              ∙ ap (last max_history_size)
                  (append_assoc before (codec.dumps m ∷ []) (map codec.dumps ms))))

  -- What `json.dumps` writes of a message, `json.loads` reads.
  abbrev pub IsRead : ChatMessage → Type 0
  IsRead m = codec.loads (codec.dumps m) ≡ some m

  All-drop : (n : ℕ) (ms : List ChatMessage) → All IsRead ms → All IsRead (drop n ms)
  All-drop zero ms h = h
  All-drop (suc n) [] h = h
  All-drop (suc n) (m ∷ ms) (_, h) = All-drop n ms h

  parse_all-dumps :
      (ms : List ChatMessage) → All IsRead ms → parse_all codec (map codec.dumps ms) ≡ ms
  unfolding parse_all
  parse_all-dumps [] h = refl
  parse_all-dumps (m ∷ ms) (h, hs) = rw (h, parse_all-dumps ms hs) refl

  -- If these messages are read back as they were written, and a user without a history has messages
  -- saved one after the other, then `get_history` answers the last `limit` of them (all, if they
  -- are fewer), in their order, for every limit from 1 to 100.
  pub get_history-save_all :
      (ms : List ChatMessage) (lists : Lists) (limit : ℕ)
      → All IsRead ms
      → list_at (history_key user) lists ≡ []
      → suc limit ≤ max_history_size
      → get_history codec user (suc limit) (save_all ms lists) ≡ last (suc limit) ms
  unfolding get_history lrange_last
  get_history-save_all ms lists limit h empty bound =
      let n = suc limit in
      let after = list_at (history_key user) (save_all ms lists) in
      let stored = ap (λ l. last max_history_size (l ++ map codec.dumps ms)) empty in
      ap (parse_all codec) (
        sym (last-last n max_history_size after bound)
        ∙ (ap (last n) (last-save_all ms lists ∙ stored)
            ∙ (last-last n max_history_size (map codec.dumps ms) bound
                ∙ last-map codec.dumps n ms)))
      ∙ parse_all-dumps (last n ms) (unfold last in All-drop (length ms - n) ms h)
