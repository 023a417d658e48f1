-- ===== src/Opend/Examples.antt =====
-- The open server on two clients and a request.
use my_study.Base.{ℕ, ◌≡◌, refl, [], ◌∷◌, List, Option, some, arith}
use my_study.Base.Bytes.{Bytes}
use my_study.Base.Int.{ℤ, pos}
use my_study.Opend.{Client, no_fd, client_add, client_del}
use my_study.Opend.Deleted.{Deleted, client_del-Deleted}
use my_study.Opend.Request.{Reply, handle_request, csopen}
use my_study.Opend.Asked.{handle_request-csopen}
use my_study.Opend.Added.{Added, client_add-Added}

abbrev clients : List Client
clients = record { fd = pos 4; uid = 7 } ∷ record { fd = no_fd; uid = 0 } ∷ []

client_add-Added_example : Added clients (pos 5) 1000 (client_add clients (pos 5) 1000)
client_add-Added_example = client_add-Added clients (pos 5) 1000

client_del-Deleted_example : Deleted clients (pos 4) (client_del clients (pos 4))
client_del-Deleted_example = client_del-Deleted clients (pos 4)

abbrev nine : Bytes → ℤ → Option ℕ
nine path flag = some 9

handle_request-csopen_example :
    handle_request nine (csopen (b'/' ∷ b'f' ∷ []) 2) ≡ Reply.sent 9 (b'/' ∷ b'f' ∷ []) (pos 2)
handle_request-csopen_example =
    handle_request-csopen nine b'/' (b'f' ∷ []) 2
      ((refl, (λ e. omega arith)), ((refl, (λ e. omega arith)), tt)) (omega arith)
