-- ===== src/Tests/Answers.antt =====
-- The handler of Query on the two items, with a page of one.
use kora_db.Base.{text, []}
use kora_db.Storage.Memory.{memory}
use kora_db.Proto.Sample.{sample}
use kora_db.Query.Filter.{Filter}
use kora_db.Query.Page.{background}
use kora_db.Tests.Pack.{catalog}
use kora_db.Tests.Shop.{files}
use kora_db.Base.Int.{pos}
use kora_db.Server.{no_filter, served, refused}
use kora_db.Server.Handlers.{QueryResponse, handle_query}
use kora_db.Tests.Pages.{plain}
use kora_db.Tests.Traversals.{twice}

abbrev answer : QueryResponse
answer =
    elim (handle_query memory sample catalog files plain background (text "items") [] twice
      no_filter (pos 1)) [
        | served r ↦ r
        | refused c ↦ record { documents = []; next_page_token = [] }
      ]
