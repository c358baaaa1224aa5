-- ===== src/Proxy/Merges.antt =====
-- Lists of messages interleaved, and the writing sides of the proxy that have been given them.
use euthenia.Prelude.{
  ℕ, suc, ◌≡◌, sym, ap, ◌∙◌, List, [], ◌∷◌, ◌++◌, append-nil, replicate, replicate_snoc, concat,
  concat-append,
}
use euthenia.Dispatcher.{Message}
use euthenia.Session.Writer.{Writer, Event, write, step, writes}
use euthenia.Migrator.FlowMod.{encode, redirect_to}
use euthenia.Proxy.{Net, eproxy_data_path_port}
use euthenia.Session.Writer.Order.{IsSingle, Serial, stream, written, step-stream}

-- The third list has the elements of the first two, each in its order.
pub data Merge {A : Type 0} : List A → List A → List A → Type 0 where
  nil : Merge [] [] []
  left : {x : A} {xs ys zs : List A} → Merge xs ys zs → Merge (x ∷ xs) ys (x ∷ zs)
  right : {y : A} {xs ys zs : List A} → Merge xs ys zs → Merge xs (y ∷ ys) (y ∷ zs)

Merge-left :
    {A : Type 0} {xs ys zs : List A}
    → Merge xs ys zs
    → (x : A) → Merge (xs ++ x ∷ []) ys (zs ++ x ∷ [])
Merge-left nil x = left nil
Merge-left (left m) x = left (Merge-left m x)
Merge-left (right m) x = right (Merge-left m x)

Merge-right :
    {A : Type 0} {xs ys zs : List A}
    → Merge xs ys zs
    → (y : A) → Merge xs (ys ++ y ∷ []) (zs ++ y ∷ [])
Merge-right nil y = right nil
Merge-right (left m) y = left (Merge-right m y)
Merge-right (right m) y = right (Merge-right m y)

-- A writing side that has been given these messages, and no others: what its socket has taken, followed by what
-- is left to be sent, is their bytes. At most one write is outstanding.
pub record Given (ms : List Message) (w : Writer) : Type 0 where
  pub bytes : stream w ≡ concat ms
  pub single : IsSingle w.in_flight

Given-write :
    (ms : List Message) (m : Message) (w : Writer) → Given ms w → Given (ms ++ m ∷ []) (write m w)
Given-write ms m w h =
    let (single, bytes) = step-stream (writes m) w h.single tt in
    unfold step in
    record {
      bytes = bytes ∙ ap (λ xs. xs ++ (m ++ [])) h.bytes ∙ sym (concat-append ms (m ∷ []));
      single = single;
    }

Given-step :
    (ms : List Message) (ev : Event) (w : Writer)
    → Serial (ev ∷ []) w
    → written (ev ∷ []) ≡ []
    → Given ms w
    → Given ms (step ev w)
Given-step ms ev w serial silent h =
    let (single, bytes) = step-stream ev w h.single serial in
    record { bytes = bytes ∙ rw silent (append-nil (stream w)) ∙ h.bytes; single = single }

abbrev pub redirection : Message
redirection = encode (redirect_to eproxy_data_path_port)

-- The controller has been sent the switch's messages and those of the ovs, the switch the controller's and some
-- redirections.
pub record Sends (of_switch of_ovs of_controller : List Message) (redirects : ℕ) (n : Net)
    : Type 0 where
  pub to_controller : List Message
  pub to_switch : List Message
  pub merged : Merge of_switch of_ovs to_controller
  pub merged_switch : Merge of_controller (replicate redirects redirection) to_switch
  pub controller : Given to_controller n.controller
  pub switch : Given to_switch n.switch

module _ {ss os cs : List Message} {k : ℕ} {n : Net} (h : Sends ss os cs k n) where
  pub Sends-from_switch :
      (f : Message) → Sends (ss ++ f ∷ []) os cs k (record n { controller = write f n.controller })
  Sends-from_switch f = record {
    to_controller = h.to_controller ++ f ∷ [];
    to_switch = h.to_switch;
    merged = Merge-left h.merged f;
    merged_switch = h.merged_switch;
    controller = Given-write h.to_controller f n.controller h.controller;
    switch = h.switch;
  }

  pub Sends-from_ovs :
      (f : Message) → Sends ss (os ++ f ∷ []) cs k (record n { controller = write f n.controller })
  Sends-from_ovs f = record {
    to_controller = h.to_controller ++ f ∷ [];
    to_switch = h.to_switch;
    merged = Merge-right h.merged f;
    merged_switch = h.merged_switch;
    controller = Given-write h.to_controller f n.controller h.controller;
    switch = h.switch;
  }

  pub Sends-from_controller :
      (f : Message) → Sends ss os (cs ++ f ∷ []) k (record n { switch = write f n.switch })
  Sends-from_controller f = record {
    to_controller = h.to_controller;
    to_switch = h.to_switch ++ f ∷ [];
    merged = h.merged;
    merged_switch = Merge-left h.merged_switch f;
    controller = h.controller;
    switch = Given-write h.to_switch f n.switch h.switch;
  }

  pub Sends-redirection : Sends ss os cs (suc k) (record n { switch = write redirection n.switch })
  Sends-redirection = record {
    to_controller = h.to_controller;
    to_switch = h.to_switch ++ redirection ∷ [];
    merged = h.merged;
    merged_switch = rw (replicate_snoc k redirection) at (Merge-right h.merged_switch redirection);
    controller = h.controller;
    switch = Given-write h.to_switch redirection n.switch h.switch;
  }

  pub Sends-switch_io :
      (ev : Event)
      → Serial (ev ∷ []) n.switch
      → written (ev ∷ []) ≡ []
      → Sends ss os cs k (record n { switch = step ev n.switch })
  Sends-switch_io ev serial silent = record {
    to_controller = h.to_controller;
    to_switch = h.to_switch;
    merged = h.merged;
    merged_switch = h.merged_switch;
    controller = h.controller;
    switch = Given-step h.to_switch ev n.switch serial silent h.switch;
  }

  pub Sends-controller_io :
      (ev : Event)
      → Serial (ev ∷ []) n.controller
      → written (ev ∷ []) ≡ []
      → Sends ss os cs k (record n { controller = step ev n.controller })
  Sends-controller_io ev serial silent = record {
    to_controller = h.to_controller;
    to_switch = h.to_switch;
    merged = h.merged;
    merged_switch = h.merged_switch;
    controller = Given-step h.to_controller ev n.controller serial silent h.controller;
    switch = h.switch;
  }
