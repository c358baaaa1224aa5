-- ===== src/Tester/Groups.antt =====
-- Where the numbers of a test end up: `do_test`, `group_test` and `onMessage` of PacketInTester.cpp.
use euthenia.Prelude.{
  zero, suc, ◌+◌, ◌-◌, ◌%◌, map, ap, map-modify, map-replicate, modify_middle, modify-append,
  length-modify, All-modify, length-replicate, All-replicate, append-nil, Returns, Returns->>=,
  Returns-if, length-append, ℕ, ◌<◌, ◌≡◌, refl, sym, ◌∙◌, Bool, true, false, List, [], ◌∷◌, ◌++◌,
  length, modify, replicate, ltb, All, arith,
}
use mathlib.Core.Bool.{false≢true}
use euthenia.Dispatcher.{Message}
use euthenia.Session.Writer.{Writer}
use euthenia.FlowGen.{FlowGen, u32}
use euthenia.Tester.{Group, new_group, Tester, new_tester, received, on_message, receive}

-- A group that has sent no flow, and one that has counted no packet-in message.
abbrev pub SentNone : Group → Type 0
SentNone g = g.sent_flow ≡ 0

abbrev pub ReceivedNone : Group → Type 0
ReceivedNone g = g.successed_pktin ≡ 0

-- What `n` rounds send: the first `sent`, the others nothing.
abbrev pub sent_in : (n sent : ℕ) → List ℕ
sent_in zero sent = []
sent_in (suc n) sent = sent ∷ replicate n 0

-- The first 2048 groups, which only receive, `n` groups pushed, and `idle` if the generator has stopped. In the
-- rounds that are over the numbers `done` of packet-in messages have come, and `now` in this one.
pub record Split (done : List ℕ) (now sent index n : ℕ) (idle : Bool) (t : Tester) : Type 0 where
  pub receiving : List Group
  pub pushed : List Group
  pub groups : t.groups ≡ receiving ++ pushed
  pub many : length receiving ≡ 2048
  pub sent_none : All SentNone receiving
  pub rounds : length done ≡ index
  pub counted :
      map (λ (g : Group). g.successed_pktin) receiving ≡ done ++ now ∷ replicate (2047 - index) 0
  pub received_none : All ReceivedNone pushed
  pub sents : map (λ (g : Group). g.sent_flow) pushed ≡ sent_in n sent
  pub place : t.group_index ≡ index
  pub stopped : idle ≡ true → t.flow_gen.is_run ≡ false

on_message-Split :
    (done : List ℕ) (count sent n : ℕ) (idle : Bool) (now : ℕ) (msg : Message) (t : Tester)
    → n < 2048
    → Split done count sent n n idle t
    → Returns (Split done ((count + 1) % u32) sent n n idle) (on_message now msg t)
unfolding on_message
on_message-Split done count sent n idle now msg t few s =
    Returns-if (Split done ((count + 1) % u32) sent n n idle) (ltb t.group_index (length t.groups))
      _ _
      (λ _. record {
        receiving = modify s.receiving n (received now);
        pushed = s.pushed;
        groups =
            rw (s.groups, s.place)
              (modify-append s.receiving s.pushed n (received now) (omega (arith, s.many)));
        many = length-modify s.receiving n (received now) ∙ s.many;
        sent_none =
            All-modify SentNone s.receiving n (received now) (λ g h. unfold received in h)
              s.sent_none;
        rounds = s.rounds;
        counted =
            map-modify (λ (g : Group). g.successed_pktin) (received now) (λ c. (c + 1) % u32)
              (λ g. unfold received in refl) s.receiving n
            ∙ ap (λ cs. modify cs n (λ c. (c + 1) % u32)) s.counted
            ∙ modify_middle done count (replicate (2047 - n) 0) n (λ c. (c + 1) % u32) s.rounds;
        received_none = s.received_none;
        sents = s.sents;
        place = s.place;
        stopped = s.stopped;
      })
      (λ beyond. absurd (
        ground (
          arith,
          beyond,
          s.place,
          s.many,
          few,
          ap length s.groups,
          length-append s.receiving s.pushed,
        )))

pub receive-Split :
    (done : List ℕ) (count sent n : ℕ) (idle : Bool) (arrivals : List (ℕ × Message)) (t : Tester)
    → n < 2048
    → count < u32
    → Split done count sent n n idle t
    → Returns (Split done ((count + length arrivals) % u32) sent n n idle) (receive arrivals t)
unfolding receive
receive-Split done count sent n idle [] t few small s =
    let same : (count + 0) % u32 ≡ count = omega (arith, small) in rw same s
receive-Split done count sent n idle ((now, msg) ∷ rest) t few small s =
    let both : ((count + 1) % u32 + length rest) % u32 ≡ (count + suc (length rest)) % u32 =
      omega arith in
    Returns->>= (Split done ((count + 1) % u32) sent n n idle)
      (Split done ((count + suc (length rest)) % u32) sent n n idle) (on_message now msg t) _
      (on_message-Split done count sent n idle now msg t few s)
      λ t' s'.
        rw both at (receive-Split done ((count + 1) % u32) sent n idle rest t' few (omega arith) s')

pub new_tester-Split :
    (sent : ℕ) (generator : FlowGen Unit) (session : Writer)
    → Split [] 0 sent 0 0 (ltb 0 0) (new_tester generator session)
unfolding new_tester
new_tester-Split sent generator session = record {
  receiving = replicate 2048 new_group;
  pushed = [];
  groups = sym (append-nil (replicate 2048 new_group));
  many = length-replicate 2048 new_group;
  sent_none = All-replicate SentNone 2048 new_group refl;
  rounds = refl;
  counted = map-replicate (λ (g : Group). g.successed_pktin) 2048 new_group;
  received_none = tt;
  sents = refl;
  place = refl;
  stopped = λ h. absurd (false≢true h);
}
