-- ===== src/Net/Connection/Owed.antt =====
-- net/tcp_connection.cpp: what a connection still owes to its peer, over the log of its writes.
use lightnet.Common.{
  take, drop, take-append-drop, ℕ, ◌≡◌, sym, ap, ◌∙◌, List, [], ◌∷◌, ◌++◌, append_assoc, append-nil,
}
use lightnet.Buffer.{Buffer, peek}
use lightnet.Buffer.Space.{IsValid}
use lightnet.Net.Connection.{Event, requested, wrote}
use lightnet.Net.Connection.Log.{requests, writes, requests-snoc, writes-snoc, still_up, Owes}

-- What a write takes from `bytes` is what is left of them before `rest`.
pub wrote-Owes :
    (n : ℕ) (log : List Event) (buf buf' : Buffer) (bytes rest rest' : List ℕ)
    → Owes rest log buf
    → IsValid buf'
    → peek buf ++ rest ≡ bytes
    → peek buf' ++ rest' ≡ drop n bytes
    → Owes rest' (log ++ (wrote (take n bytes) ∷ [])) buf'
wrote-Owes n log buf buf' bytes rest rest' i v' before after = record {
  valid = v';
  in_order = λ up.
      ap (λ (l : List ℕ). l ++ (peek buf' ++ rest')) (writes-snoc log (wrote (take n bytes)))
      ∙ append_assoc (writes log) (take n bytes) (peek buf' ++ rest')
      ∙ ap (λ (l : List ℕ). writes log ++ (take n bytes ++ l)) after
      ∙ ap (◌++◌ (writes log)) (take-append-drop n bytes ∙ sym before)
      ∙ i.in_order (still_up log (wrote (take n bytes)) up)
      ∙ sym (requests-snoc log (wrote (take n bytes)) ∙ append-nil (requests log));
}

-- `bytes` are to be sent, behind the others.
pub requested-Owes :
    (log : List Event) (buf : Buffer) (bytes : List ℕ)
    → Owes [] log buf
    → Owes bytes (log ++ (requested bytes ∷ [])) buf
requested-Owes log buf bytes i = record {
  valid = i.valid;
  in_order = λ up.
      ap (λ (l : List ℕ). l ++ (peek buf ++ bytes))
        (writes-snoc log (requested bytes) ∙ append-nil (writes log))
      ∙ sym (append_assoc (writes log) (peek buf) bytes)
      ∙ ap (λ (l : List ℕ). (writes log ++ l) ++ bytes) (sym (append-nil (peek buf)))
      ∙ ap (λ (l : List ℕ). l ++ bytes) (i.in_order (still_up log (requested bytes) up))
      ∙ sym (requests-snoc log (requested bytes));
}

-- `rest` has been stored.
pub stored-Owes :
    (log : List Event) (buf buf' : Buffer) (rest : List ℕ)
    → Owes rest log buf
    → IsValid buf'
    → peek buf' ≡ peek buf ++ rest
    → Owes [] log buf'
stored-Owes log buf buf' rest i v' e = record {
  valid = v';
  in_order = λ up. ap (◌++◌ (writes log)) (append-nil (peek buf') ∙ e) ∙ i.in_order up;
}
