-- ===== src/Tests/Delivering.antt =====
-- A switch's bytes at the controller's socket, at concrete inputs.
use euthenia.Prelude.{◌≡◌, refl, List, [], ◌∷◌, ◌++◌, ok, ◌>>=◌, arith, concat}
use euthenia.Machine.Endian.{little}
use euthenia.Dispatcher.{Message}
use euthenia.Session.Writer.{Writer, Event, starts, sends, ends, step, run}
use euthenia.Session.Writer
use euthenia.Session.Writer.Order.{stream}
use euthenia.Proxy.Delivery.{after_switch, delivered}
use euthenia.Tests.Inputs.{hello, packet, hello-IsFrame, packet-IsFrame, stale, watching}

-- The second message is under way.
abbrev some_sends : List Event
some_sends = starts ∷ sends 0 3 ∷ sends 0 5 ∷ ends 0 ∷ starts ∷ sends 0 4 ∷ []

abbrev messages : List Message
messages = hello ∷ packet ∷ []

delivered_example :
    (after_switch little stale 5 stale watching Writer.init (concat messages ++ 4 ∷ []) >>= λ w.
    ok (stream (run some_sends w)))
    ≡ ok (concat messages)
unfolding step
delivered_example =
    delivered little stale 5 stale watching Writer.init messages (4 ∷ [])
      (hello-IsFrame, (packet-IsFrame, tt)) (omega arith) (omega arith) (omega arith) some_sends
      (refl, (refl, tt)) refl
